-- ===== src/Tests/Intakes.antt =====
-- A connection that gets a frame of three bytes, of which two are read.
use usbws_lws.Base.{refl, [], ◌∷◌, pos}
use usbws_lws.Session.State.{Session, signal_recv, callback_on_writable, handled, session_init}
use usbws_lws.Session.Recv.{handle_recv, recv_pass}
use usbws_lws.Session.Callback.{handle_session, on_event, session_start, call_if_set, received}
use usbws_lws.Session.Callback.Reasons.{established, receive, needs_session}
use usbws_lws.Session.Intake.{Intake, opened, called, read, Balanced, Intake-Balanced}
use usbws_lws.Daemon.Hooks.{daemon_owner, hook_call, service_start_session}
use usbws_lws.Tests.Data.{calm, session_at, message, daemon_state}

abbrev half_read : Session
half_read = record (session_at (pos 200) (message ∷ [])) {
  recv_offset = 2;
  calls = signal_recv ∷ callback_on_writable ∷ [];
}

intake : Intake daemon_owner (message ∷ []) 2 half_read daemon_state
unfolding handle_session on_event needs_session session_start session_init call_if_set hook_call
    service_start_session received handled handle_recv recv_pass
intake = read 2 0 [] (
    called calm receive message (pos 0)
      (record (session_at (pos 200) []) { calls = callback_on_writable ∷ [] }) daemon_state
      (opened calm established [] (pos 0) (session_at (pos 0) []) daemon_state refl refl) refl refl
      refl)

Intake-Balanced_example : Balanced (message ∷ []) 2 half_read
Intake-Balanced_example = Intake-Balanced daemon_owner intake
