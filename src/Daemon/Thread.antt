-- ===== src/Daemon/Thread.antt =====
-- The thread of a session of the daemon.
use usbws_lws.Base.{ℕ, List, [], ◌∷◌, ℤ, is_true, if◌then◌else◌}
use usbws_lws.Session.Sock.{Sock, sock_init}

-- A call of `usbipd_recv_pdu`, which serves the peer until it is done.
pub data ThreadAct : Type 0 where
  received_pdu : Sock → ThreadAct

-- `usbws_service_session`: the address and the name of the peer are found, or nothing is served.
unfoldable pub service_session :
    (getpeername_returns getnameinfo_returns : ℤ) → (socket_of : ℕ → ℕ) → (wsi : ℕ) → List ThreadAct
service_session getpeername_returns getnameinfo_returns socket_of wsi =
    if is_true getpeername_returns
    then []
    else if is_true getnameinfo_returns
    then []
    else received_pdu (sock_init socket_of wsi) ∷ []
