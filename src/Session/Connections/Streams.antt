-- ===== src/Session/Connections/Streams.antt =====
-- The stream of each connection of a context.
use usbws_lws.Base.{
  get_elem?, modify, remove, ℕ, zero, suc, ◌+◌, ◌≡◌, refl, ap, subst, Option, some, List, [], ◌∷◌,
  arith, ℤ,
}
use usbws_lws.Session.State.{Session}
use usbws_lws.Session.Write.Chunks.{IsWell}
use usbws_lws.Session.Write.Stream.{Keeps}
use usbws_lws.Session.Recv.{recv_pass, after_pass}
use usbws_lws.Session.Callback.{Owner}
use usbws_lws.Session.Callback.Post.{After}
use usbws_lws.Session.Callback.History.{grant}
use usbws_lws.Session.Sender.{send_begin}
use usbws_lws.Session.Sender.Delivery.{handle_session-Keeps}
use usbws_lws.Session.Life.{Stream, opened-Keeps, opened-Stream, Keeps-Stream, handed-Stream}
use usbws_lws.Session.Broadcast.{CallAll, CallsAll}
use usbws_lws.Session.Broadcast.Each.{All, Each}
use usbws_lws.Session.Broadcast.Reach.{request_send-Keeps, check_all-Keeps}
use usbws_lws.Session.Connections.{
  Ledger, hand, allow, set, Serves, none_yet, opened, called, sent, checked, read, gone,
}

-- The stream of a connection, by its ledger.
abbrev pub Holds : Ledger → Session → Type 0
Holds l s = Stream l.old l.sent l.granted s

abbrev pub Streams : List Ledger → List Session → Type 0
Streams [] [] = Unit
Streams [] (_ ∷ _) = ⊥
Streams (_ ∷ _) [] = ⊥
Streams (l ∷ ls) (s ∷ conns) = Holds l s × Streams ls conns

Streams-IsWell : (ls : List Ledger) (conns : List Session) → Streams ls conns → All IsWell conns
Streams-IsWell [] [] h = tt
Streams-IsWell [] (s ∷ conns) h = absurd h
Streams-IsWell (l ∷ ls) [] h = absurd h
Streams-IsWell (l ∷ ls) (s ∷ conns) (h, hs) = (h.well, Streams-IsWell ls conns hs)

Streams-modify :
    (f : Ledger → Ledger) (t : Session) (ls : List Ledger) (conns : List Session) (i : ℕ)
    (s : Session)
    → Streams ls conns
    → get_elem? conns i ≡ some s
    → ((l : Ledger) → Holds l s → Holds (f l) t)
    → Streams (modify ls i f) (set conns i t)
Streams-modify f t [] [] i s h at step = cc
Streams-modify f t [] (c ∷ conns) i s h at step = absurd h
Streams-modify f t (l ∷ ls) [] i s h at step = absurd h
Streams-modify f t (l ∷ ls) (c ∷ conns) zero s (h, hs) at step =
    let e : c ≡ s = cc in (step l (subst (Holds l) e h), hs)
Streams-modify f t (l ∷ ls) (c ∷ conns) (suc i) s (h, hs) at step =
    (h, Streams-modify f t ls conns i s hs at step)

modify-id : (ls : List Ledger) (i : ℕ) → modify ls i (λ l. l) ≡ ls
modify-id [] i = refl
modify-id (l ∷ ls) zero = refl
modify-id (l ∷ ls) (suc i) = ap (◌∷◌ l) (modify-id ls i)

Holds-allow : (g : ℕ) (l : Ledger) (s t : Session) → Holds l s → Keeps g s t → Holds (allow g l) t
Holds-allow g l s t h k = Keeps-Stream l.old l.sent l.granted g s t h k

Holds-Keeps : (l : Ledger) (s t : Session) → Holds l s → Keeps 0 s t → Holds l t
Holds-Keeps l s t h k =
    let a = Holds-allow 0 l s t h k in
    record { well = a.well; stream = a.stream; paced = omega (arith, a.paced); sized = a.sized }

Streams-remove :
    (ls : List Ledger) (conns : List Session) (i : ℕ)
    → Streams ls conns
    → Streams (remove ls i) (remove conns i)
Streams-remove [] [] i h = tt
Streams-remove [] (c ∷ conns) i h = absurd h
Streams-remove (l ∷ ls) [] i h = absurd h
Streams-remove (l ∷ ls) (c ∷ conns) zero (h, hs) = hs
Streams-remove (l ∷ ls) (c ∷ conns) (suc i) (h, hs) = (h, Streams-remove ls conns i hs)

Streams-Each :
    (ls : List Ledger) (i : ℕ) (conns after : List Session)
    → Streams ls conns
    → Each (λ _. Keeps 0) i conns after
    → Streams ls after
Streams-Each [] i [] [] h e = tt
Streams-Each [] i [] (_ ∷ _) h e = absurd e
Streams-Each [] i (_ ∷ _) after h e = absurd h
Streams-Each (_ ∷ _) i [] after h e = absurd h
Streams-Each (_ ∷ _) i (_ ∷ _) [] h e = absurd e
Streams-Each (l ∷ ls) i (s ∷ conns) (t ∷ after) (h, hs) (e, es) =
    (Holds-Keeps l s t h e, Streams-Each ls (i + 1) conns after hs es)

-- A broadcast that keeps each stream, which ends in `after`.
broadcast-Streams :
    {State : Type 0} (ls : List Ledger) (conns after : List Session) (ret : ℤ) (st' : State)
    (r : Option (ℤ × List Session × State))
    → Streams ls conns
    → r ≡ some (ret, after, st')
    → (ret' : ℤ) × (kept : List Session) × (u : State) × (r ≡ some (ret', kept, u))
      × Each (λ _. Keeps 0) 0 conns kept
    → Streams ls after
broadcast-Streams ls conns after ret st' r h e (ret', kept, u, e', each) =
    let same : kept ≡ after = cc in subst (Streams ls) same (Streams-Each ls 0 conns kept h each)

module _ (o : Owner) (all : CallAll (o.State)) (calls : CallsAll all) where
  -- In a context with any number of connections, where `lws_write` does not fail, a message is handed
  -- to a connection only when none is pending there, and none is handed over in a sleep of
  -- `usbws_wait_recv`: whatever their callbacks, such sends of their threads, of which each reaches
  -- every connection, the health checks and the rounds of `usbws_recv`, `Stream` holds of every
  -- connection.
  -- What one thread sends goes to its own connection, whole and in order, and to no other.
  pub Serves-Streams :
      {ls : List Ledger} {conns : List Session} {st : o.State}
      → Serves o all ls conns st
      → Streams ls conns
  Serves-Streams (none_yet st) = tt
  Serves-Streams (opened io reason frame ret old st {ls} {conns} {t} {st'} run first e) = (
    opened-Stream old io t (opened-Keeps o old io reason frame ret t st st' first e),
    Serves-Streams run,
  )
  Serves-Streams (called i io reason frame ret s st {ls} {conns} {t} run at fair later e) =
      let streams = Serves-Streams run in
      Streams-modify (allow (grant reason)) t ls conns i s streams at (λ l h.
        Holds-allow (grant reason) l s t h (
          subst (After (Keeps (grant reason) s)) e
            (handle_session-Keeps o io reason frame s st fair later h.well)))
  Serves-Streams (sent i ios buf ret s st {ls} {conns} {after} {st'} run at idle fair e) =
      let begun = set conns i (send_begin buf s) in
      let streams : Streams (modify ls i (hand buf)) begun =
        Streams-modify (hand buf) (send_begin buf s) ls conns i s (Serves-Streams run) at
          (λ l h. handed-Stream l.old buf l.sent l.granted s h idle) in
      broadcast-Streams (modify ls i (hand buf)) begun after ret st' _ streams e
        (request_send-Keeps o all calls ios fair begun st (Streams-IsWell _ begun streams))
  Serves-Streams (checked ios ret st {ls} {conns} {after} {st'} run fair e) =
      let streams = Serves-Streams run in
      broadcast-Streams ls conns after ret st' _ streams e
        (check_all-Keeps o all calls ios fair conns st (Streams-IsWell ls conns streams))
  Serves-Streams (read i len total dbuf s {st} {ls} {conns} run at) =
      let t = after_pass (recv_pass len s.recv_queue s.recv_offset total dbuf) s in
      subst (λ (ks : List Ledger). Streams ks (set conns i t)) (modify-id ls i)
        (Streams-modify (λ l. l) t ls conns i s (Serves-Streams run) at
          (λ l h. record { well = h.well; stream = h.stream; paced = h.paced; sized = h.sized }))
  Serves-Streams (gone i {ls} {conns} run) = Streams-remove ls conns i (Serves-Streams run)
