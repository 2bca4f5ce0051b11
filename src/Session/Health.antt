-- ===== src/Session/Health.antt =====
-- `usbws_check_session`: pings on a silent connection, and the end of a dead one.
pub mod Verdict
use usbws_lws.Base.{
  Bool, true, false, not, ◌&&◌, ℤ, pos, negsuc, ◌+ℤ◌, ◌-ℤ◌, leb_ℤ, is_true, if◌then◌else◌,
}
use usbws_lws.Ctx.{Ctx, ping_pong_timeout}
use usbws_lws.Session.State.{Session, Io, discontinue, close_me}
use usbws_lws.Session.Write.{send_ping}

-- A ping, then the close frame, and -1 to libwebsockets.
unfoldable pub end_session : Io → Session → ℤ × Session
end_session io s = (negsuc 0, close_me (send_ping io s).1)

unfoldable pub check_session : {Hook : Type 0} → Io → Ctx Hook → Session → ℤ × Session
unfolding end_session
check_session io ctx s =
    let delta = io.now -ℤ s.stamp in
    if not s.cont
    then end_session io s
    else if not (is_true ctx.ping_pong)
    then (pos 0, s)
    else if leb_ℤ (ctx.ping_pong +ℤ ping_pong_timeout) delta
    then end_session io (discontinue s)
    else if leb_ℤ ctx.ping_pong delta && not s.pinged
    then (pos 0, (send_ping io s).1)
    else (pos 0, s)
