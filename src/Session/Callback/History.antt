-- ===== src/Session/Callback/History.antt =====
-- What any history of callbacks keeps, from the establishment of a connection on.
use usbws_lws.Base.{
  ℕ, zero, suc, ◌≡◌, refl, true, false, Bool, Option, none, some, List, arith, ℤ, pos, if_intro,
}
use usbws_lws.Session.State.{
  Session, Io, log, callback_on_writable, session_init, slept, discontinue, handled, close_me,
}
use usbws_lws.Session.Write.{◌>>=◌}
use usbws_lws.Session.Write.Chunks.{IsWell, Accepts}
use usbws_lws.Session.Write.Stream.{Keeps}
use usbws_lws.Session.Write.Steps.{
  Keeps-same, Ensures, handle_writable-Keeps, handle_send_request-Keeps,
}
use usbws_lws.Session.Health.Verdict.{check_session-Keeps}
use usbws_lws.Session.Recv.{handle_recv, wait_recv_loop, wait_recv, session_close, is_empty}
use usbws_lws.Session.Callback.{
  Owner, call_if_set, session_start, session_stop, received, receive_pong_event, on_event,
}
use usbws_lws.Session.Callback.Meanwhile.{Meanwhile, Meanwhile-Keeps, Keeps-trans, Keeps-aside}
use usbws_lws.Session.Callback.Post.{After, hook-After}
use usbws_lws.Session.Callback.Reasons.{
  Reason, established, client_established, closed, client_connection_error, receive, client_receive,
  receive_pong, server_writeable, client_writeable, health_check, send_request, other,
}

-- `lws_write` does not fail, and the other threads hand over no message during a sleep.
pub record IsFair (io : Io) : Type 0 where
  pub accepts : Accepts io
  pub asleep : (s : Session) → Meanwhile s (io.asleep s)

-- The writes that a callback allows.
abbrev pub grant : Reason → ℕ
grant server_writeable = 1
grant client_writeable = 1
grant _ = 0

abbrev pub establishes : Reason → Bool
establishes established = true
establishes client_established = true
establishes _ = false

module _ (io : Io) (s : Session) (well : IsWell s) where
  received-Keeps : (frame : List ℕ) → Keeps 0 s (received io frame s)
  unfolding received handled handle_recv
  received-Keeps frame =
      if_intro (λ (r : ℤ × Session). Keeps 0 s (handled io r.1)) io.frame_is_binary
        (λ _.
          if_intro (λ (r : ℤ × Session). Keeps 0 s (handled io r.1)) io.memory_left
            (λ _. Keeps-aside s _ well (refl, refl, refl) refl (omega arith) (λ sized. sized))
            (λ _. Keeps-aside s _ well (refl, refl, refl) refl (omega arith) (λ sized. sized)))
        (λ _. Keeps-aside s _ well (refl, refl, refl) refl (omega arith) (λ sized. sized))

  receive_pong_event-Keeps : Keeps 0 s (receive_pong_event io s).1
  unfolding receive_pong_event handled close_me
  receive_pong_event-Keeps =
      if_intro (λ (r : ℤ × Session). Keeps 0 s r.1) s.cont
        (λ _. Keeps-aside s _ well (refl, refl, refl) refl (omega arith) (λ sized. sized))
        (λ _. Keeps-aside s _ well (refl, refl, refl) refl (omega arith) (λ sized. sized))

wait_recv_loop-Keeps :
    (retry : ℕ) (io : Io) (queued : Bool) (s : Session)
    → IsFair io
    → IsWell s
    → Keeps 0 s (wait_recv_loop retry io queued s).1
unfolding wait_recv_loop
wait_recv_loop-Keeps zero io queued s fair well = Keeps-same s well
wait_recv_loop-Keeps (suc retry) io queued s fair well =
    if_intro (λ (r : Bool × Session). Keeps 0 s r.1) s.cont
      (λ _.
        if_intro (λ (r : Bool × Session). Keeps 0 s r.1) (is_empty s.recv_queue)
          (λ _. Keeps-same s well)
          (λ _.
            Keeps-trans 0 0 s _ _ slept_kept
              (wait_recv_loop-Keeps retry io true _ fair slept_kept.well)))
      (λ _. Keeps-same s well)
  where
    slept_kept : Keeps 0 s (io.asleep (log slept s))
    slept_kept =
        let h = Meanwhile-Keeps (fair.asleep (log slept s)) well in
        record { well = h.well; stream = h.stream; paced = h.paced; sized = h.sized; ends = h.ends }

closing-Keeps :
    (io : Io) (s : Session) → IsFair io → IsWell s → Keeps 0 s (session_close (wait_recv io s))
unfolding session_close wait_recv discontinue
closing-Keeps io s fair well =
    let h = wait_recv_loop-Keeps 1 io false s fair well in
    record { well = h.well; stream = h.stream; paced = h.paced; sized = h.sized; ends = h.ends }

module _ (o : Owner) where
  open o use {State}

  hook-Keeps :
      (h : Option o.Hook) (io : Io) (s t : Session) (st : State)
      → Keeps 0 s t
      → After (Keeps 0 s) (call_if_set o h io (some t) st)
  hook-Keeps h io s t st k = hook-After o (Keeps 0 s) h io t st (λ _. record {
    well = k.well;
    stream = k.stream;
    paced = k.paced;
    sized = k.sized;
    ends = k.ends;
  })

  lift-After :
      (g : ℕ) (s : Session) (st : State) (ret : ℤ → ℤ) (m : Option (ℤ × Session))
      → Ensures (Keeps g s) m
      → After (Keeps g s) (m >>= λ (r, t). some (ret r, some t, st))
  lift-After g s st ret none h = h
  lift-After g s st ret (some (r, t)) h = h

  pub on_event-Keeps :
      (io : Io) (reason : Reason) (frame : List ℕ) (s : Session) (st : State)
      → IsFair io
      → establishes reason ≡ false
      → IsWell s
      → After (Keeps (grant reason) s) (on_event o io reason frame (some s) st)
  unfolding on_event session_stop
  on_event-Keeps io established frame s st fair later well = cc
  on_event-Keeps io client_established frame s st fair later well = cc
  on_event-Keeps io closed frame s st fair later well =
      hook-Keeps _ io s _ st (closing-Keeps io s fair well)
  on_event-Keeps io client_connection_error frame s st fair later well =
      hook-Keeps _ io s s st (Keeps-same s well)
  on_event-Keeps io receive frame s st fair later well = received-Keeps io s well frame
  on_event-Keeps io client_receive frame s st fair later well = received-Keeps io s well frame
  on_event-Keeps io receive_pong frame s st fair later well = receive_pong_event-Keeps io s well
  on_event-Keeps io server_writeable frame s st fair later well =
      lift-After 1 s st (λ _. pos 0) _ (handle_writable-Keeps io fair.accepts s well)
  on_event-Keeps io client_writeable frame s st fair later well =
      lift-After 1 s st (λ _. pos 0) _ (handle_writable-Keeps io fair.accepts s well)
  on_event-Keeps io health_check frame s st fair later well =
      check_session-Keeps io (o.ctx st) s well
  on_event-Keeps io send_request frame s st fair later well =
      lift-After 0 s st (λ r. r) _ (handle_send_request-Keeps io fair.accepts s well)
  on_event-Keeps io other frame s st fair later well = Keeps-same s well

  -- What the establishment of a connection leaves, if its hook does not make an undefined access.
  pub established-After :
      (io : Io) (reason : Reason) (frame : List ℕ) (s : Session) (st : State)
      → establishes reason ≡ true
      → After
          (Keeps 0 (log callback_on_writable (session_init io s)))
          (on_event o io reason frame (some s) st)
  unfolding on_event session_start session_init
  established-After io established frame s st e = hook-Keeps _ io _ _ st (Keeps-same _ tt)
  established-After io client_established frame s st e = hook-Keeps _ io _ _ st (Keeps-same _ tt)
  established-After io closed frame s st e = cc
  established-After io client_connection_error frame s st e = cc
  established-After io receive frame s st e = cc
  established-After io client_receive frame s st e = cc
  established-After io receive_pong frame s st e = cc
  established-After io server_writeable frame s st e = cc
  established-After io client_writeable frame s st e = cc
  established-After io health_check frame s st e = cc
  established-After io send_request frame s st e = cc
  established-After io other frame s st e = cc
