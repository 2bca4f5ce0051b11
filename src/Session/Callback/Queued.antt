-- ===== src/Session/Callback/Queued.antt =====
-- What each callback does to the queue of received frames.
use usbws_lws.Base.{
  ℕ, ◌≡◌, refl, sym, Bool, true, false, ◌&&◌, some, List, [], ◌∷◌, ◌++◌, append-nil, arith, pos,
  if◌then◌else◌,
}
use usbws_lws.Ctx.{Ctx}
use usbws_lws.Session.State.{Session, Io, handled, close_me, discontinue, session_init}
use usbws_lws.Session.Write.{
  send_data, after_write, send_ping_now, send_ping, handle_send_request, cancel_unless_sent,
  handle_writable,
}
use usbws_lws.Session.Health.{check_session, end_session}
use usbws_lws.Session.Recv.{handle_recv}
use usbws_lws.Session.Callback.{
  Owner, session_start, session_stop, received, receive_pong_event, on_event,
}
use usbws_lws.Session.Callback.Post.{Post, PostCall, hook-Post, lift-Post}
use usbws_lws.Session.Callback.History.{establishes}
use usbws_lws.Session.Callback.Reasons.{
  Reason, established, client_established, closed, client_connection_error, receive, client_receive,
  receive_pong, server_writeable, client_writeable, health_check, send_request, other,
}

-- What a callback puts into the queue: the frame, if it is binary and there is memory for it.
abbrev pub takes_frame : Reason → Bool
takes_frame receive = true
takes_frame client_receive = true
takes_frame _ = false

abbrev pub queued_by : Io → Reason → List ℕ → List (List ℕ)
queued_by io reason frame =
    if takes_frame reason && io.frame_is_binary && io.memory_left then frame ∷ [] else []

-- From `s` on, the frames `more` were put behind the queue, and nothing else was done to it.
abbrev pub Queued : List (List ℕ) → Session → Session → Type 0
Queued more s t = (t.recv_queue ≡ s.recv_queue ++ more) × (t.recv_offset ≡ s.recv_offset)

module _ (io : Io) (s : Session) where
  handle_writable-Queued : PostCall (Queued [] s) (handle_writable io s)
  unfolding handle_writable send_data after_write send_ping_now
  handle_writable-Queued = ground (arith, append-nil s.recv_queue)

  handle_send_request-Queued : PostCall (Queued [] s) (handle_send_request io s)
  unfolding handle_send_request send_data after_write cancel_unless_sent
  handle_send_request-Queued = ground (arith, append-nil s.recv_queue)

  received-Queued : (frame : List ℕ) → Queued (queued_by io receive frame) s (received io frame s)
  unfolding received handled handle_recv
  received-Queued frame = ground (arith, append-nil s.recv_queue)

  pong-Queued : Queued [] s (receive_pong_event io s).1
  unfolding receive_pong_event handled close_me
  pong-Queued = ground (arith, append-nil s.recv_queue)

  send_ping-Queued : Queued [] s (send_ping io s).1
  unfolding send_ping send_ping_now
  send_ping-Queued = ground (arith, append-nil s.recv_queue)

check_session-Queued :
    {Hook : Type 0} (io : Io) (s : Session) (ctx : Ctx Hook)
    → Queued [] s (check_session io ctx s).1
unfolding check_session end_session close_me discontinue
check_session-Queued io s ctx =
    ground
      (arith, append-nil s.recv_queue, send_ping-Queued io s, send_ping-Queued io (discontinue s))

abbrev pub closes : Reason → Bool
closes closed = true
closes _ = false

-- The session has an empty queue.
abbrev pub Fresh : Session → Type 0
Fresh t = (t.recv_queue ≡ []) × (t.recv_offset ≡ 0)

module _ (o : Owner) where
  open o use {State}

  pub on_event-Queued :
      (io : Io) (reason : Reason) (frame : List ℕ) (s : Session) (st : State)
      → establishes reason ≡ false
      → closes reason ≡ false
      → Post (Queued (queued_by io reason frame) s) (on_event o io reason frame (some s) st)
  unfolding on_event session_stop
  on_event-Queued io established frame s st later unclosed = cc
  on_event-Queued io client_established frame s st later unclosed = cc
  on_event-Queued io closed frame s st later unclosed = cc
  on_event-Queued io client_connection_error frame s st later unclosed =
      hook-Post o (Queued [] s) _ io s st (λ _. (sym (append-nil s.recv_queue), refl))
  on_event-Queued io receive frame s st later unclosed = received-Queued io s frame
  on_event-Queued io client_receive frame s st later unclosed = received-Queued io s frame
  on_event-Queued io receive_pong frame s st later unclosed = pong-Queued io s
  on_event-Queued io server_writeable frame s st later unclosed =
      lift-Post (Queued [] s) st (λ _. pos 0) _ (handle_writable-Queued io s)
  on_event-Queued io client_writeable frame s st later unclosed =
      lift-Post (Queued [] s) st (λ _. pos 0) _ (handle_writable-Queued io s)
  on_event-Queued io health_check frame s st later unclosed = check_session-Queued io s (o.ctx st)
  on_event-Queued io send_request frame s st later unclosed =
      lift-Post (Queued [] s) st (λ r. r) _ (handle_send_request-Queued io s)
  on_event-Queued io other frame s st later unclosed = (sym (append-nil s.recv_queue), refl)

  pub on_event-Fresh :
      (io : Io) (reason : Reason) (frame : List ℕ) (s : Session) (st : State)
      → establishes reason ≡ true
      → Post Fresh (on_event o io reason frame (some s) st)
  unfolding on_event session_start session_init
  on_event-Fresh io established frame s st e = hook-Post o Fresh _ io _ st (λ _. (refl, refl))
  on_event-Fresh io client_established frame s st e =
      hook-Post o Fresh _ io _ st (λ _. (refl, refl))
  on_event-Fresh io closed frame s st e = cc
  on_event-Fresh io client_connection_error frame s st e = cc
  on_event-Fresh io receive frame s st e = cc
  on_event-Fresh io client_receive frame s st e = cc
  on_event-Fresh io receive_pong frame s st e = cc
  on_event-Fresh io server_writeable frame s st e = cc
  on_event-Fresh io client_writeable frame s st e = cc
  on_event-Fresh io health_check frame s st e = cc
  on_event-Fresh io send_request frame s st e = cc
  on_event-Fresh io other frame s st e = cc
