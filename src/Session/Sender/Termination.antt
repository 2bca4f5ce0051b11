-- ===== src/Session/Sender/Termination.antt =====
-- A call of `usbws_send` comes to its end: how many writable callbacks it takes.
use usbws_lws.Base.{
  ℕ, ◌+◌, ◌*◌, ◌≤◌, ◌<◌, ◌≡◌, refl, sym, ◌∙◌, subst, true, Option, Option-cases, none, some, inl,
  inr, List, [], ◌∷◌, ◌++◌, arith, ℤ, pos, length,
}
use usbws_lws.Session.State.{Session, Io}
use usbws_lws.Session.Write.{
  ◌>>=◌, handle_writable, handle_send_request, send_data, after_write, send_ping_now,
  cancel_unless_sent,
}
use usbws_lws.Session.Write.Chunks.{wire, IsWell, Accepts}
use usbws_lws.Session.Write.Stream.{Keeps}
use usbws_lws.Session.Write.Steps.{
  Ensures, Ensures-bind, Keeps-same, handle_writable-Keeps, handle_send_request-Keeps,
}
use usbws_lws.Session.Write.Progress.{
  TakesAll, TakesAll-Accepts, writable_each, writable_each_sends, writable_each-IsIdle, IsIdle,
  idle_stream, All,
}
use usbws_lws.Session.Callback.{Owner, handle_session, on_event}
use usbws_lws.Session.Callback.Post.{PostCall}
use usbws_lws.Session.Callback.Reasons.{server_writeable, needs_session}
use usbws_lws.Session.Callback.Meanwhile.{Keeps-trans}
use usbws_lws.Session.Sender.{send_begin, send_prologue, send_finish}
use usbws_lws.Session.Sender.Delivery.{finished}

module _ (o : Owner) where
  open o use {State}

  -- The writable callbacks of the connection, one after another.
  unfoldable pub serve_each : List Io → Session → State → Option (Session × State)
  serve_each [] s st = some (s, st)
  serve_each (io ∷ ios) s st = do
    (_, left, st1) ← handle_session o io server_writeable [] (some s) st
    t ← left
    serve_each ios t st1

  -- `usbws_send` up to its wait, and the callbacks.
  unfoldable pub send_run : Io → List Io → List ℕ → Session → State → Option (Session × State)
  send_run io ios buf s st = do
    (_, left, st1) ← send_prologue o io buf s st
    t ← left
    serve_each ios t st1

  serve_each_lem :
      (ios : List Io) (s : Session) (st : State)
      → serve_each ios s st ≡ (writable_each ios s >>= λ (_, t). some (t, st))
  unfolding serve_each writable_each handle_session on_event needs_session
  serve_each_lem [] s st = refl
  serve_each_lem (io ∷ ios) s st = elim (Option-cases (handle_writable io s)) [
    | inl fault ↦ rw fault
    | inr ((r, t), e) ↦ rw e (serve_each_lem ios t st)
  ]

Ensures-map :
    (P Q : Session → Type 0) (m : Option (ℤ × Session))
    → ((t : Session) → P t → Q t)
    → Ensures P m
    → Ensures Q m
Ensures-map P Q none f h = h
Ensures-map P Q (some (_, t)) f h = f t h

-- What a call leaves of a session: its stream, and whether it goes on.
record Goes (n : ℕ) (s t : Session) : Type 0 where
  keeps : Keeps n s t
  on : t.cont ≡ s.cont

Ensures-Goes :
    (n : ℕ) (s : Session) (m : Option (ℤ × Session))
    → Ensures (Keeps n s) m
    → PostCall (λ t. t.cont ≡ s.cont) m
    → Ensures (Goes n s) m
Ensures-Goes n s none k e = k
Ensures-Goes n s (some (_, t)) k e = record { keeps = k; on = e }

module _ (io : Io) (accepts : Accepts io) (s : Session) (well : IsWell s) where
  handle_writable-Goes : Ensures (Goes 1 s) (handle_writable io s)
  unfolding handle_writable send_data after_write send_ping_now
  handle_writable-Goes =
      Ensures-Goes 1 s (handle_writable io s) (handle_writable-Keeps io accepts s well)
        (ground arith)

  handle_send_request-Goes : Ensures (Goes 0 s) (handle_send_request io s)
  unfolding handle_send_request send_data after_write cancel_unless_sent
  handle_send_request-Goes =
      Ensures-Goes 0 s (handle_send_request io s) (handle_send_request-Keeps io accepts s well)
        (ground arith)

writable_each-Goes :
    (ios : List Io) (s : Session)
    → All TakesAll ios
    → IsWell s
    → Ensures (λ t. (n : ℕ) × Goes n s t) (writable_each ios s)
unfolding writable_each
writable_each-Goes [] s all well = (0, record { keeps = Keeps-same s well; on = refl })
writable_each-Goes (io ∷ ios) s all well =
    Ensures-bind (Goes 1 s) (λ t. (n : ℕ) × Goes n s t) (handle_writable io s) (writable_each ios)
      (handle_writable-Goes io (TakesAll-Accepts io all.0) s well)
      (λ t k.
        Ensures-map (λ u. (n : ℕ) × Goes n t u) (λ u. (n : ℕ) × Goes n s u) (writable_each ios t)
          (λ u (n, h).
            (1 + n, record { keeps = Keeps-trans 1 n s t u k.keeps h.keeps; on = h.on ∙ k.on }))
          (writable_each-Goes ios t all.1 k.keeps.well))

Ensures-some :
    (P : Session → Type 0) (m : Option (ℤ × Session))
    → Ensures P m
    → (ret : ℤ) × (t : Session) × (m ≡ some (ret, t)) × P t
Ensures-some P none h = absurd h
Ensures-some P (some (ret, t)) h = (ret, t, refl, h)

module _ (ios : List Io) (buf : List ℕ) (s0 : Session) (all : All TakesAll ios)
    (some_io : 0 < length ios) (enough : length buf ≤ length ios * 1500) where
  send_begin-IsWell : IsWell (send_begin buf s0)
  unfolding send_begin
  send_begin-IsWell = (refl, refl, omega arith)

  send_begin-cont : (send_begin buf s0).cont ≡ s0.cont
  unfolding send_begin
  send_begin-cont = refl

  begun-IsIdle :
      (t : Session)
      → Keeps 0 (send_begin buf s0) t
      → Ensures (IsIdle (wire s0.calls ++ buf)) (writable_each ios t)
  unfolding send_begin
  begun-IsIdle t k = elim k.ends [
    | inr (gone, _, _) ↦
        writable_each-IsIdle ios t (wire s0.calls ++ buf)
          (gone, sym (idle_stream t gone) ∙ k.stream)
    | inl (held, _, _) ↦
        rw (← k.stream) (writable_each_sends ios t buf all held k.well some_io (omega arith))
  ]

  send_run_lem :
      (o : Owner) (io : Io) (st : o.State) (r r' : ℤ) (t s : Session)
      → handle_send_request io (send_begin buf s0) ≡ some (r, t)
      → writable_each ios t ≡ some (r', s)
      → send_run o io ios buf s0 st ≡ some (s, st)
  unfolding send_run send_prologue handle_session on_event needs_session
  send_run_lem o io st r r' t s e e' = rw e (serve_each_lem o ios t st ∙ rw e')

  -- A call of `usbws_send` returns: on a session that goes on, where its request is answered by an
  -- `lws_write` that does not fail and the connection then takes what it is given, after as many
  -- writable callbacks as the message has chunks of 1500 bytes, at least one, it returns the length
  -- of the message; no access was undefined, and the message is on the wire, whole and in order.
  pub send_returns :
      (o : Owner) (io : Io) (st : o.State)
      → Accepts io
      → s0.cont ≡ true
      → (s : Session) × (u : o.State) × (send_run o io ios buf s0 st ≡ some (s, u))
        × (send_finish s ≡ some (pos (length buf)))
        × (wire s.calls ≡ wire s0.calls ++ buf)
  unfolding send_finish
  send_returns o io st accepts on =
      let b = send_begin buf s0 in
      let well = send_begin-IsWell in
      let (r, t, e, k) =
        Ensures-some (Goes 0 b) (handle_send_request io b)
          (handle_send_request-Goes io accepts b well) in
      let (r', s, e', (n, h)) =
        Ensures-some (λ s. (n : ℕ) × Goes n t s) (writable_each ios t)
          (writable_each-Goes ios t all k.keeps.well) in
      let idle : IsIdle (wire s0.calls ++ buf) s =
        subst (Ensures (IsIdle (wire s0.calls ++ buf))) e' (begun-IsIdle t k.keeps) in
      let whole = finished o buf s0 s (0 + n) (Keeps-trans 0 n b t s k.keeps h.keeps) idle.0 in
      (
        s,
        st,
        send_run_lem o io st r r' t s e e',
        ground (arith, h.on, k.on, send_begin-cont),
        idle.1,
      )
