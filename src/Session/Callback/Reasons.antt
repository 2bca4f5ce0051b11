-- ===== src/Session/Callback/Reasons.antt =====
-- `enum lws_callback_reasons`, as far as the code tells its values apart, and the two of its own.
use usbws_lws.Base.{Bool, true, false}

pub data Reason : Type 0 where
  established client_established closed client_connection_error : Reason
  receive client_receive receive_pong : Reason
  server_writeable client_writeable : Reason
  health_check send_request : Reason
  other : Reason

-- The first `switch` of `usbws_handle_session`.
unfoldable pub needs_session : Reason → Bool
needs_session client_connection_error = false
needs_session server_writeable = false
needs_session client_writeable = false
needs_session other = false
needs_session _ = true
