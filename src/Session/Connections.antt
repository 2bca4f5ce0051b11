-- ===== src/Session/Connections.antt =====
-- A context with several connections: their callbacks, the sends of their threads, each of which
-- asks all connections to send, and the health checks, in any order.
pub mod Streams
use usbws_lws.Base.{
  get_elem?, modify, remove, ℕ, zero, suc, ◌+◌, ◌≡◌, refl, ap, subst, ◌∙◌, sym, true, false, Option,
  none, some, List, [], ◌∷◌, ◌++◌, arith, ℤ,
}
use usbws_lws.Session.State.{Session, Io}
use usbws_lws.Session.Write.Chunks.{IsWell}
use usbws_lws.Session.Write.Stream.{Keeps}
use usbws_lws.Session.Recv.{recv_pass, after_pass}
use usbws_lws.Session.Callback.{Owner, handle_session}
use usbws_lws.Session.Callback.Post.{After}
use usbws_lws.Session.Callback.Reasons.{Reason}
use usbws_lws.Session.Callback.History.{IsFair, establishes, grant}
use usbws_lws.Session.Sender.{send_begin}
use usbws_lws.Session.Sender.Delivery.{handle_session-Keeps}
use usbws_lws.Session.Life.{Stream, opened-Keeps, opened-Stream, Keeps-Stream, handed-Stream}
use usbws_lws.Session.Broadcast.{CallAll, CallsAll, check_all, request_send}
use usbws_lws.Session.Broadcast.Each.{All, Each}
use usbws_lws.Session.Broadcast.Reach.{request_send-Keeps, check_all-Keeps}

-- Of one connection: what its session's memory held, the bytes of the messages handed over, and the
-- number of writable callbacks.
pub record Ledger : Type 0 where
  pub old : Session
  pub sent : List ℕ
  pub granted : ℕ

abbrev pub hand : List ℕ → Ledger → Ledger
hand buf l = record l { sent = l.sent ++ buf }

abbrev pub allow : ℕ → Ledger → Ledger
allow n l = record l { granted = l.granted + n }

abbrev pub set : List Session → ℕ → Session → List Session
set conns i t = modify conns i (λ _. t)

module _ (o : Owner) (all : CallAll (o.State)) where
  -- The states that a context comes to. A new connection comes first, and one that has gone is taken
  -- out.
  pub data Serves : List Ledger → List Session → o.State → Type 0 where
    none_yet : (st : o.State) → Serves [] [] st
    opened :
        (io : Io) (reason : Reason) (frame : List ℕ) (ret : ℤ) (old : Session) (st : o.State)
        {ls : List Ledger} {conns : List Session} {t : Session} {st' : o.State}
        → Serves ls conns st
        → establishes reason ≡ true
        → handle_session o io reason frame (some old) st ≡ some (ret, some t, st')
        → Serves (record { old = old; sent = []; granted = 0 } ∷ ls) (t ∷ conns) st'
    called :
        (i : ℕ) (io : Io) (reason : Reason) (frame : List ℕ) (ret : ℤ) (s : Session) (st : o.State)
        {ls : List Ledger} {conns : List Session} {t : Session} {st' : o.State}
        → Serves ls conns st
        → get_elem? conns i ≡ some s
        → IsFair io
        → establishes reason ≡ false
        → handle_session o io reason frame (some s) st ≡ some (ret, some t, st')
        → Serves (modify ls i (allow (grant reason))) (set conns i t) st'
    sent :
        (i : ℕ) (ios : ℕ → Io) (buf : List ℕ) (ret : ℤ) (s : Session) (st : o.State)
        {ls : List Ledger} {conns after : List Session} {st' : o.State}
        → Serves ls conns st
        → get_elem? conns i ≡ some s
        → s.send_buf ≡ none
        → ((j : ℕ) → IsFair (ios j))
        → request_send o all ios (set conns i (send_begin buf s)) st ≡ some (ret, after, st')
        → Serves (modify ls i (hand buf)) after st'
    checked :
        (ios : ℕ → Io) (ret : ℤ) (st : o.State) {ls : List Ledger} {conns after : List Session}
        {st' : o.State}
        → Serves ls conns st
        → ((j : ℕ) → IsFair (ios j))
        → check_all o all ios conns st ≡ some (ret, after, st')
        → Serves ls after st'
    read :
        (i len total : ℕ) (dbuf : List ℕ) (s : Session) {st : o.State} {ls : List Ledger}
        {conns : List Session}
        → Serves ls conns st
        → get_elem? conns i ≡ some s
        → Serves ls
            (set conns i (after_pass (recv_pass len s.recv_queue s.recv_offset total dbuf) s))
            st
    gone :
        (i : ℕ) {ls : List Ledger} {conns : List Session} {st : o.State}
        → Serves ls conns st
        → Serves (remove ls i) (remove conns i) st
