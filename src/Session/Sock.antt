-- ===== src/Session/Sock.antt =====
-- `usbws_sock_init`: what the USB/IP library is given to reach a session.
use usbws_lws.Base.{ℕ}

-- The three functions of src/usbws_session.c that it may call.
pub data SockFunction : Type 0 where
  usbws_send usbws_recv usbws_shutdown : SockFunction

-- What `usbip_sock_init` is called with; `arg` is the connection, which the functions are passed.
pub record Sock : Type 0 where
  pub fd : ℕ
  pub arg : ℕ
  pub send : SockFunction
  pub recv : SockFunction
  pub shutdown : SockFunction

unfoldable pub sock_init : (socket_of : ℕ → ℕ) → (wsi : ℕ) → Sock
sock_init socket_of wsi = record {
  fd = socket_of wsi;
  arg = wsi;
  send = usbws_send;
  recv = usbws_recv;
  shutdown = usbws_shutdown;
}
