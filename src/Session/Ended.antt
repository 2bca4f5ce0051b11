-- ===== src/Session/Ended.antt =====
-- A session that is discontinued stays so, and its peers find out.
use usbws_lws.Base.{
  ℕ, ◌≡◌, refl, subst, ◌∙◌, Bool, false, ◌&&◌, some, List, [], arith, ℤ, pos, negsuc, if_intro,
}
use usbws_lws.Ctx.{Ctx}
use usbws_lws.Session.State.{Session, Io, discontinue, handled, close_me}
use usbws_lws.Session.Write.{
  send_data, after_write, send_ping_now, send_ping, handle_send_request, cancel_unless_sent,
  handle_writable,
}
use usbws_lws.Session.Health.{check_session, end_session}
use usbws_lws.Session.Recv.{Others, handle_recv, session_close, recv, recv_loop, returned}
use usbws_lws.Session.Callback.{
  Owner, session_stop, received, receive_pong_event, on_event, handle_session,
}
use usbws_lws.Session.Callback.Post.{Post, PostCall, hook-Post, lift-Post}
use usbws_lws.Session.Callback.Reasons.{
  Reason, established, client_established, closed, client_connection_error, receive, client_receive,
  receive_pong, server_writeable, client_writeable, health_check, send_request, other,
  needs_session,
}
use usbws_lws.Session.Callback.History.{establishes}
use usbws_lws.Session.Sender.{send_finish}

abbrev IsDown : Session → Type 0
IsDown t = t.cont ≡ false

module _ (io : Io) (s : Session) (off : s.cont ≡ false) where
  handle_writable-DownCall : PostCall IsDown (handle_writable io s)
  unfolding handle_writable send_data after_write send_ping_now
  handle_writable-DownCall = ground arith

  handle_send_request-DownCall : PostCall IsDown (handle_send_request io s)
  unfolding handle_send_request send_data after_write cancel_unless_sent
  handle_send_request-DownCall = ground arith

  received_down : (frame : List ℕ) → (received io frame s).cont ≡ false
  unfolding received handled handle_recv
  received_down frame = ground arith

  pong_down : (receive_pong_event io s).1.cont ≡ false
  unfolding receive_pong_event handled close_me
  pong_down = ground arith

  -- A health check ends a discontinued session.
  check_session_down :
      {Hook : Type 0} (ctx : Ctx Hook)
      → ((check_session io ctx s).0 ≡ negsuc 0) × ((check_session io ctx s).1.cont ≡ false)
  unfolding check_session end_session close_me send_ping send_ping_now
  check_session_down ctx = ground arith

module _ (o : Owner) where
  open o use {State}

  on_event-Down :
      (io : Io) (reason : Reason) (frame : List ℕ) (s : Session) (st : State)
      → establishes reason ≡ false
      → s.cont ≡ false
      → Post IsDown (on_event o io reason frame (some s) st)
  unfolding on_event session_stop session_close discontinue
  on_event-Down io established frame s st later off = cc
  on_event-Down io client_established frame s st later off = cc
  on_event-Down io closed frame s st later off = hook-Post o IsDown _ io _ st (λ _. refl)
  on_event-Down io client_connection_error frame s st later off =
      hook-Post o IsDown _ io s st (λ _. off)
  on_event-Down io receive frame s st later off = received_down io s off frame
  on_event-Down io client_receive frame s st later off = received_down io s off frame
  on_event-Down io receive_pong frame s st later off = pong_down io s off
  on_event-Down io server_writeable frame s st later off =
      lift-Post IsDown st (λ _. pos 0) _ (handle_writable-DownCall io s off)
  on_event-Down io client_writeable frame s st later off =
      lift-Post IsDown st (λ _. pos 0) _ (handle_writable-DownCall io s off)
  on_event-Down io health_check frame s st later off = (check_session_down io s off (o.ctx st)).1
  on_event-Down io send_request frame s st later off =
      lift-Post IsDown st (λ r. r) _ (handle_send_request-DownCall io s off)
  on_event-Down io other frame s st later off = off

  -- Callbacks for one session, none of them its establishment, with any calls between them of other
  -- threads that keep `cont`.
  pub data Runs (s0 : Session) (st0 : State) : Session → State → Type 0 where
    start : Runs s0 st0 s0 st0
    callback :
        (io : Io) (reason : Reason) (frame : List ℕ) (ret : ℤ) (s : Session) (st : State)
        {t : Session} {st' : State}
        → Runs s0 st0 s st
        → establishes reason ≡ false
        → handle_session o io reason frame (some s) st ≡ some (ret, some t, st')
        → Runs s0 st0 t st'
    meanwhile :
        (f : Session → Session) (s : Session) {st : State}
        → ((u : Session) → (f u).cont ≡ u.cont)
        → Runs s0 st0 s st
        → Runs s0 st0 (f s) st

  handle_session-Down :
      (io : Io) (reason : Reason) (frame : List ℕ) (s : Session) (st : State)
      → establishes reason ≡ false
      → s.cont ≡ false
      → Post IsDown (handle_session o io reason frame (some s) st)
  unfolding handle_session
  handle_session-Down io reason frame s st later off =
      if_intro (Post IsDown) (needs_session reason && false) (λ e. absurd (ground arith))
        (λ _. on_event-Down io reason frame s st later off)

  Runs-down :
      {s0 : Session} {st0 : State} {s : Session} {st : State}
      → Runs s0 st0 s st
      → s0.cont ≡ false
      → s.cont ≡ false
  Runs-down start off = off
  Runs-down (callback io reason frame ret s st run later e) off =
      subst (Post IsDown) e (handle_session-Down io reason frame s st later (Runs-down run off))
  Runs-down (meanwhile f s same run) off = same s ∙ Runs-down run off

  -- After a session is discontinued, whatever callbacks for it run, but its establishment anew: the
  -- wait of `usbws_send` is over, with -1; `usbws_recv` returns 0 at once, with no byte; and a health
  -- check tells libwebsockets, by -1, to close the connection.
  pub discontinued_stays :
      {s0 : Session} {st0 : State} {s : Session} {st : State} (ws : List Others) (len : ℕ)
      (all : Bool) (io : Io)
      → Runs s0 st0 s st
      → s0.cont ≡ false
      → (send_finish s ≡ some (negsuc 0))
        × (recv ws len all s ≡ returned (pos 0) [] s)
        × ((check_session io (o.ctx st) s).0 ≡ negsuc 0)
  unfolding send_finish recv recv_loop
  discontinued_stays {s = s} {st = st} ws len all io run off0 =
      let off = Runs-down run off0 in
      (ground arith, ground arith, (check_session_down io s off (o.ctx st)).0)
