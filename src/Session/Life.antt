-- ===== src/Session/Life.antt =====
-- The life of a session, from the establishment of its connection on: callbacks, messages that are
-- handed over one after the other, and rounds of `usbws_recv`, in any order.
pub mod Range
use usbws_lws.Base.{
  ℕ, ◌+◌, ◌≤◌, ◌≡◌, refl, sym, ap, subst, ◌∙◌, true, false, ◌&&◌, none, some, List, [], ◌++◌,
  append_assoc, append-nil, arith, ℤ, if_intro,
}
use usbws_lws.Session.State.{Session, Io, log, callback_on_writable, session_init}
use usbws_lws.Session.Write.Chunks.{wire, unsent, unsent_of, writes, credit, IsSized, IsWell}
use usbws_lws.Session.Write.Stream.{Keeps}
use usbws_lws.Session.Recv.{recv_pass, after_pass}
use usbws_lws.Session.Callback.{Owner, handle_session}
use usbws_lws.Session.Callback.Reasons.{Reason, needs_session}
use usbws_lws.Session.Callback.History.{IsFair, establishes, grant, established-After}
use usbws_lws.Session.Callback.Post.{After}
use usbws_lws.Session.Sender.{send_begin}
use usbws_lws.Session.Sender.Delivery.{handle_session-Keeps}

-- The states that a connection comes to whose session lies in memory that held `old`, with the
-- bytes of the messages handed over so far and the number of writable callbacks. A message is
-- handed over when none is pending.
pub data Life (o : Owner) (old : Session) : List ℕ → ℕ → Session → o.State → Type 0 where
  opened :
      (io : Io) (reason : Reason) (frame : List ℕ) (ret : ℤ) (st : o.State) {t : Session}
      {st' : o.State}
      → establishes reason ≡ true
      → handle_session o io reason frame (some old) st ≡ some (ret, some t, st')
      → Life o old [] 0 t st'
  called :
      (io : Io) (reason : Reason) (frame : List ℕ) (ret : ℤ) (s : Session) (st : o.State)
      {sent : List ℕ} {g : ℕ} {t : Session} {st' : o.State}
      → Life o old sent g s st
      → IsFair io
      → establishes reason ≡ false
      → handle_session o io reason frame (some s) st ≡ some (ret, some t, st')
      → Life o old sent (g + grant reason) t st'
  handed :
      (buf : List ℕ) {sent : List ℕ} {g : ℕ} {s : Session} {st : o.State}
      → Life o old sent g s st
      → s.send_buf ≡ none
      → Life o old (sent ++ buf) g (send_begin buf s) st
  read :
      (len total : ℕ) (dbuf : List ℕ) {sent : List ℕ} {g : ℕ} {s : Session} {st : o.State}
      → Life o old sent g s st
      → Life o old sent g (after_pass (recv_pass len s.recv_queue s.recv_offset total dbuf) s) st

-- The bytes accepted since the establishment, followed by those still pending, are the messages
-- handed over, in order; there is at most one write for each writable callback, none of more than
-- 1500 bytes; and the pending message is well-formed.
pub record Stream (old : Session) (sent : List ℕ) (g : ℕ) (s : Session) : Type 0 where
  pub well : IsWell s
  pub stream : wire s.calls ++ unsent s ≡ wire old.calls ++ sent
  pub paced : credit s ≤ writes old.calls + g
  pub sized : IsSized old.calls → IsSized s.calls

module _ (old : Session) where
  pub opened-Stream :
      (io : Io) (t : Session)
      → Keeps 0 (log callback_on_writable (session_init io old)) t
      → Stream old [] 0 t
  unfolding session_init
  opened-Stream io t k = record {
    well = k.well;
    stream = k.stream;
    paced = omega (arith, k.paced);
    sized = k.sized;
  }

  pub Keeps-Stream :
      (sent : List ℕ) (g h : ℕ) (s t : Session)
      → Stream old sent g s
      → Keeps h s t
      → Stream old sent (g + h) t
  Keeps-Stream sent g h s t a k = record {
    well = k.well;
    stream = k.stream ∙ a.stream;
    paced = omega (arith, a.paced, k.paced);
    sized = λ sized. k.sized (a.sized sized);
  }

  pub handed-Stream :
      (buf sent : List ℕ) (g : ℕ) (s : Session)
      → Stream old sent g s
      → s.send_buf ≡ none
      → Stream old (sent ++ buf) g (send_begin buf s)
  unfolding send_begin
  handed-Stream buf sent g s a idle = record {
    well = (refl, refl, omega arith);
    stream =
        ap (λ b. b ++ buf)
          (sym (append-nil (wire s.calls))
            ∙ ap (λ b. wire s.calls ++ unsent_of b s.send_offset) (sym idle)
            ∙ a.stream)
        ∙ append_assoc (wire old.calls) sent buf;
    paced = a.paced;
    sized = a.sized;
  }

module _ (o : Owner) (old : Session) where
  pub opened-Keeps :
      (io : Io) (reason : Reason) (frame : List ℕ) (ret : ℤ) (t : Session) (st st' : o.State)
      → establishes reason ≡ true
      → handle_session o io reason frame (some old) st ≡ some (ret, some t, st')
      → Keeps 0 (log callback_on_writable (session_init io old)) t
  unfolding handle_session
  opened-Keeps io reason frame ret t st st' first e =
      let opening = Keeps 0 (log callback_on_writable (session_init io old)) in
      subst (After opening) e (
        if_intro (After opening) (needs_session reason && false) (λ e. absurd (ground arith))
          (λ _. established-After o io reason frame old st first))

  -- In the life of a session where `lws_write` does not fail, a message is handed over only when none
  -- is pending, and none is handed over in a sleep of `usbws_wait_recv`, whatever the callbacks, such
  -- messages and rounds of `usbws_recv` and their order, `Stream` holds: the bytes that the connection has accepted since its establishment, followed by those
  -- still pending, are the messages handed over, in order; there was at most one write for each
  -- writable callback, none of more than 1500 bytes; and the pending message is well-formed.
  pub Life-Stream :
      {sent : List ℕ} {g : ℕ} {s : Session} {st : o.State}
      → Life o old sent g s st
      → Stream old sent g s
  Life-Stream (opened io reason frame ret st {t} {st'} first e) =
      opened-Stream old io t (opened-Keeps io reason frame ret t st st' first e)
  Life-Stream (called io reason frame ret s st {sent} {g} {t} life fair later e) =
      let a = Life-Stream life in
      Keeps-Stream old sent g (grant reason) s t a (
        subst (After (Keeps (grant reason) s)) e
          (handle_session-Keeps o io reason frame s st fair later a.well))
  Life-Stream (handed buf {sent} {g} {s} life idle) =
      handed-Stream old buf sent g s (Life-Stream life) idle
  Life-Stream (read len total dbuf life) =
      let a = Life-Stream life in
      record { well = a.well; stream = a.stream; paced = a.paced; sized = a.sized }
