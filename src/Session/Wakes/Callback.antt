-- ===== src/Session/Wakes/Callback.antt =====
-- The signals of the callbacks of src/usbws_session.c.
use usbws_lws.Base.{
  ℕ, zero, suc, ◌<◌, ◌≡◌, subst, Bool, true, false, ◌&&◌, some, List, arith, ℤ, pos, if_intro,
  Option,
}
use usbws_lws.Session.State.{Session, Io, slept, log, discontinue}
use usbws_lws.Session.Recv.{wait_recv, wait_recv_loop, is_empty, recv_pass}
use usbws_lws.Session.Callback.{Owner, call_if_set, session_stop, on_event, handle_session}
use usbws_lws.Session.Callback.Post.{Post, PostCall, hook-Post, lift-Post}
use usbws_lws.Session.Callback.Meanwhile.{Meanwhile, still, passed, discontinued, requested}
use usbws_lws.Session.Callback.Reasons.{
  Reason, established, client_established, closed, client_connection_error, receive, client_receive,
  receive_pong, server_writeable, client_writeable, health_check, send_request, other,
  needs_session,
}
use usbws_lws.Session.Callback.History.{establishes}
use usbws_lws.Session.Wakes.{
  Wakes, send_signals, recv_signals, awaits_end, awaits_frame, Wakes-same, Wakes-trans, slept-Wakes,
  session_close-Wakes, discontinue-Wakes, after_pass-Wakes, received-Wakes,
  receive_pong_event-Wakes, check_session-Wakes, handle_writable-WakesCall,
  handle_send_request-WakesCall,
}

Meanwhile-Wakes : {s t : Session} → Meanwhile s t → Wakes s t
unfolding discontinue recv_pass
Meanwhile-Wakes (still s) = Wakes-same s
Meanwhile-Wakes (passed len total dbuf {s} {t} before) =
    Wakes-trans s t _ (Meanwhile-Wakes before) (after_pass-Wakes t len total dbuf)
Meanwhile-Wakes (discontinued {s} {t} before) =
    Wakes-trans s t _ (Meanwhile-Wakes before) (discontinue-Wakes t)
Meanwhile-Wakes (requested io ret {s} {t} {u} before accepts e) =
    Wakes-trans s t u (Meanwhile-Wakes before)
      (subst (PostCall (Wakes t)) e (handle_send_request-WakesCall io t))

wait_recv_loop-Wakes :
    (retry : ℕ) (io : Io) (queued : Bool) (s : Session)
    → ((u : Session) → Meanwhile u (io.asleep u))
    → Wakes s (wait_recv_loop retry io queued s).1
unfolding wait_recv_loop
wait_recv_loop-Wakes zero io queued s asleep = Wakes-same s
wait_recv_loop-Wakes (suc retry) io queued s asleep =
    if_intro (λ (r : Bool × Session). Wakes s r.1) s.cont
      (λ _.
        if_intro (λ (r : Bool × Session). Wakes s r.1) (is_empty s.recv_queue) (λ _. Wakes-same s)
          (λ _. Wakes-trans s (log slept s) _ (slept-Wakes s) (
            Wakes-trans _ _ _ (Meanwhile-Wakes (asleep (log slept s)))
              (wait_recv_loop-Wakes retry io true _ asleep))))
      (λ _. Wakes-same s)

module _ (o : Owner) where
  open o use {State}

  call_if_set-Wakes :
      (h : Option o.Hook) (io : Io) (s t : Session) (st : State)
      → Wakes s t
      → Post (Wakes s) (call_if_set o h io (some t) st)
  call_if_set-Wakes h io s t st w =
      hook-Post o (Wakes s) h io t st
        (λ _. record { sends = w.sends; recvs = w.recvs; ended = w.ended; arrived = w.arrived })

  on_event-Wakes :
      (io : Io) (reason : Reason) (frame : List ℕ) (s : Session) (st : State)
      → ((u : Session) → Meanwhile u (io.asleep u))
      → establishes reason ≡ false
      → Post (Wakes s) (on_event o io reason frame (some s) st)
  unfolding on_event session_stop wait_recv
  on_event-Wakes io established frame s st asleep later = cc
  on_event-Wakes io client_established frame s st asleep later = cc
  on_event-Wakes io closed frame s st asleep later = call_if_set-Wakes _ io s _ st (
      Wakes-trans s (wait_recv io s) _ (wait_recv_loop-Wakes 1 io false s asleep)
        (session_close-Wakes (wait_recv io s)))
  on_event-Wakes io client_connection_error frame s st asleep later =
      call_if_set-Wakes _ io s s st (Wakes-same s)
  on_event-Wakes io receive frame s st asleep later = received-Wakes io s frame
  on_event-Wakes io client_receive frame s st asleep later = received-Wakes io s frame
  on_event-Wakes io receive_pong frame s st asleep later = receive_pong_event-Wakes io s
  on_event-Wakes io server_writeable frame s st asleep later =
      lift-Post (Wakes s) st (λ _. pos 0) _ (handle_writable-WakesCall io s)
  on_event-Wakes io client_writeable frame s st asleep later =
      lift-Post (Wakes s) st (λ _. pos 0) _ (handle_writable-WakesCall io s)
  on_event-Wakes io health_check frame s st asleep later = check_session-Wakes io s (o.ctx st)
  on_event-Wakes io send_request frame s st asleep later =
      lift-Post (Wakes s) st (λ r. r) _ (handle_send_request-WakesCall io s)
  on_event-Wakes io other frame s st asleep later = Wakes-same s

  -- Whatever the callback and the platform's replies, but for the establishment of a connection,
  -- and where in a sleep of `usbws_wait_recv` other threads receive, end the session and request
  -- sends, in which `lws_write` does not fail, but hand over no message: if the callback returns and
  -- has turned the test false on which `usbws_send` waits, for it has sent the message to its end or
  -- discontinued the session, then it has signalled the condition of `usbws_send`; and if it has
  -- turned the test false on which `usbws_recv` waits, by a frame or by discontinuing the session,
  -- then it has signalled the condition of `usbws_recv`.
  pub handle_session-Wakes :
      (io : Io) (reason : Reason) (frame : List ℕ) (ret : ℤ) (s t : Session) (st st' : State)
      → ((u : Session) → Meanwhile u (io.asleep u))
      → establishes reason ≡ false
      → handle_session o io reason frame (some s) st ≡ some (ret, some t, st')
      → (awaits_end s ≡ true → awaits_end t ≡ false → send_signals s.calls < send_signals t.calls)
        × (awaits_frame s ≡ true
            → awaits_frame t ≡ false
            → recv_signals s.calls < recv_signals t.calls)
  unfolding handle_session
  handle_session-Wakes io reason frame ret s t st st' asleep later e =
      let w = subst (Post (Wakes s)) e (
        if_intro (Post (Wakes s)) (needs_session reason && false) (λ e. absurd (ground arith))
          (λ _. on_event-Wakes io reason frame s st asleep later)) in
      (w.ended, w.arrived)
