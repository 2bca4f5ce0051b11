-- ===== src/Session/Callback.antt =====
-- `usbws_handle_session`, the callback that libwebsockets calls for a connection.
pub mod Reasons
pub mod Post
pub mod Queued
pub mod History
pub mod Meanwhile
use usbws_lws.Base.{
  ℕ, ◌≡◌, Bool, true, false, not, ◌&&◌, Option, none, some, List, ℤ, pos, negsuc, is_some,
  if◌then◌else◌,
}
use usbws_lws.Ctx.{Ctx}
use usbws_lws.Session.State.{
  Session, Io, callback_on_writable, log, session_init, handled, close_me,
}
use usbws_lws.Session.Write.{handle_writable, handle_send_request, ◌>>=◌}
use usbws_lws.Session.Health.{check_session}
use usbws_lws.Session.Recv.{handle_recv, wait_recv, session_close}
use Reasons.{
  Reason, established, client_established, closed, client_connection_error, receive, client_receive,
  receive_pong, server_writeable, client_writeable, health_check, send_request, other,
  needs_session,
}

-- A hook of the context changes no field of a session but `tid`.
pub record Spares (s t : Session) : Type 0 where
  pub same : t ≡ record s { tid = t.tid }

-- What a call returns, with the session and the owner's state behind it; `none` is an access that
-- C does not define.
abbrev pub Outcome : Type 0 → Type 0
Outcome State = Option (ℤ × Option Session × State)

abbrev pub OutcomeSpares : {State : Type 0} → Session → Outcome State → Type 0
OutcomeSpares s none = ⊥
OutcomeSpares s (some (_, none, _)) = ⊥
OutcomeSpares s (some (_, some t, _)) = Spares s t

-- The owner of a context: what its function pointers name, its state, and what a call of one does.
pub record Owner : Type 1 where
  pub Hook : Type 0
  pub State : Type 0
  pub ctx : State → Ctx Hook
  pub call : Hook → Io → Option Session → State → Outcome State
  pub call-spares :
      (h : Hook) (io : Io) (s : Session) (st : State) → OutcomeSpares s (call h io (some s) st)

-- `LWS_CALLBACK_RECEIVE` and `LWS_CALLBACK_RECEIVE_PONG`
unfoldable pub received : Io → List ℕ → Session → Session
received io frame s = handled io (handle_recv io frame s).1

unfoldable pub receive_pong_event : Io → Session → ℤ × Session
receive_pong_event io s =
    if s.cont then (pos 0, record (handled io s) { pinged = false }) else (negsuc 0, close_me s)

module _ (o : Owner) where
  open o use {Hook, State, ctx, call}

  unfoldable pub call_if_set : Option Hook → Io → Option Session → State → Outcome State
  call_if_set none io session st = some (pos 0, session, st)
  call_if_set (some h) io session st = call h io session st

  -- `usbws_session_start` and `usbws_session_stop`
  unfoldable pub session_start : Io → Option Session → State → Outcome State
  unfolding call_if_set
  session_start io session st = call_if_set (ctx st).start io session st

  unfoldable pub session_stop : Io → Option Session → State → Outcome State
  unfolding call_if_set
  session_stop io session st = call_if_set (ctx st).stop io session st

  -- The second `switch`; a field of a session that is NULL is an undefined access.
  unfoldable pub on_event : Io → Reason → List ℕ → Option Session → State → Outcome State
  unfolding received
  on_event io established frame session st = do
    s ← session
    session_start io (some (log callback_on_writable (session_init io s))) st
  on_event io client_established frame session st = do
    s ← session
    session_start io (some (log callback_on_writable (session_init io s))) st
  on_event io closed frame session st = do
    s ← session
    session_stop io (some (session_close (wait_recv io s))) st
  on_event io client_connection_error frame session st = session_stop io session st
  on_event io receive frame session st = do
    s ← session
    some (pos 0, some (received io frame s), st)
  on_event io client_receive frame session st = do
    s ← session
    some (pos 0, some (received io frame s), st)
  on_event io receive_pong frame session st = do
    s ← session
    some ((receive_pong_event io s).0, some (receive_pong_event io s).1, st)
  on_event io server_writeable frame session st = do
    s ← session
    (_, t) ← handle_writable io s
    some (pos 0, some t, st)
  on_event io client_writeable frame session st = do
    s ← session
    (_, t) ← handle_writable io s
    some (pos 0, some t, st)
  on_event io health_check frame session st = do
    s ← session
    some ((check_session io (ctx st) s).0, some (check_session io (ctx st) s).1, st)
  on_event io send_request frame session st = do
    s ← session
    (ret, t) ← handle_send_request io s
    some (ret, some t, st)
  on_event io other frame session st = some (pos 0, session, st)

  unfoldable pub handle_session : Io → Reason → List ℕ → Option Session → State → Outcome State
  unfolding on_event
  handle_session io reason frame session st =
      if needs_session reason && not (is_some session)
      then some (negsuc 0, session, st)
      else on_event io reason frame session st
