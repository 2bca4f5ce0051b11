-- ===== src/Tests/Sessions.antt =====
-- Runs of the session: sending, callbacks, health checks.
use usbws_lws.Base.{
  ◌-ℤ◌, ◌+ℤ◌, ◌≡◌, ◌≢◌, ◌<◌, ◌⊎◌, refl, ◌∷◌, ◌++◌, [], true, false, none, some, arith, pos, negsuc,
}
use usbws_lws.Session.State.{
  Session, written, binary, callback_on_writable, signal_send, cancel_service,
}
use usbws_lws.Session.Write.{
  handle_writable, send_data, chunk_len, after_write, handle_send_request, cancel_unless_sent,
}
use usbws_lws.Session.Write.Chunks.{wire, unsent}
use usbws_lws.Session.Write.Stream.{Keeps}
use usbws_lws.Session.Health.{check_session}
use usbws_lws.Session.Health.Verdict.{check_session_lem, IsDead, DeadOutcome, AliveOutcome}
use usbws_lws.Session.Callback.{handle_session, on_event}
use usbws_lws.Session.Callback.Reasons.{needs_session, server_writeable}
use usbws_lws.Session.Callback.Post.{After}
use usbws_lws.Session.Sender.{send_begin, send_prologue, send_finish, Sending, begun, served}
use usbws_lws.Session.Callback.Meanwhile.{still}
use usbws_lws.Session.Wakes.{awaits_end, awaits_frame, send_signals, recv_signals}
use usbws_lws.Session.Wakes.Callback.{handle_session-Wakes}
use usbws_lws.Session.Sender.Overwrite.{send_overwrites}
use usbws_lws.Session.Sender.Delivery.{handle_session-Keeps, send_delivers}
use usbws_lws.Session.Sender.Termination.{send_run, send_returns}
use usbws_lws.Daemon.Hooks.{daemon_owner}
use usbws_lws.Tests.Data.{
  calm, calm-IsFair, calm-TakesAll, session_at, message, sending, daemon_state,
}

abbrev pub idle : Session
idle = session_at (pos 190) []

-- The session once the writable callback has run.
abbrev pub sent : Session
sent = record idle {
  send_offset = pos 3;
  calls = callback_on_writable ∷ signal_send ∷ written binary message (pos 3) ∷ cancel_service ∷ [];
}

pub run_send : Sending daemon_owner message idle daemon_state sent daemon_state
unfolding send_prologue send_begin handle_session on_event needs_session handle_send_request
    cancel_unless_sent handle_writable send_data chunk_len after_write ◌-ℤ◌ ◌+ℤ◌
run_send = served calm server_writeable [] (begun calm calm-IsFair refl) calm-IsFair refl refl

pub send_finish-sent : send_finish sent ≡ some (pos 3)
unfolding send_finish
send_finish-sent = refl

send_delivers_example :
    ((pos 3 ≡ negsuc 0) × (sent.cont ≡ false))
    ⊎ ((pos 3 ≡ pos 3) × (sent.cont ≡ true) × (wire sent.calls ≡ message))
send_delivers_example = send_delivers daemon_owner run_send send_finish-sent

handle_session-Keeps_example :
    After
      (Keeps 1 sending)
      (handle_session daemon_owner calm server_writeable [] (some sending) daemon_state)
handle_session-Keeps_example =
    handle_session-Keeps daemon_owner calm server_writeable [] sending daemon_state calm-IsFair refl
      (refl, refl, omega arith)

-- A discontinued session, with two bytes of a message still to send.
abbrev unfinished : Session
unfinished = record sending { cont = false; send_offset = pos 1 }

abbrev overwritten : Session
overwritten = record unfinished {
  send_buf = none;
  send_len = pos 0;
  send_offset = pos 2;
  calls =
      callback_on_writable
      ∷ signal_send
      ∷ written binary (8 ∷ 9 ∷ []) (pos 2)
      ∷ cancel_service
      ∷ [];
}

run_again : Sending daemon_owner (8 ∷ 9 ∷ []) unfinished daemon_state overwritten daemon_state
unfolding send_prologue send_begin handle_session on_event needs_session handle_send_request
    cancel_unless_sent handle_writable send_data chunk_len after_write ◌-ℤ◌ ◌+ℤ◌
run_again = served calm server_writeable [] (begun calm calm-IsFair refl) calm-IsFair refl refl

send_overwrites_example :
    (wire overwritten.calls ++ unsent overwritten ≡ 8 ∷ 9 ∷ [])
    × (wire overwritten.calls ++ unsent overwritten ≢ unsent unfinished ++ 8 ∷ 9 ∷ [])
send_overwrites_example = send_overwrites daemon_owner run_again (λ e. cc)

abbrev all_sent : Session
all_sent = record sending {
  send_buf = none;
  send_len = pos 0;
  send_offset = pos 3;
  calls = callback_on_writable ∷ signal_send ∷ written binary message (pos 3) ∷ [];
}

writes_all :
    handle_session daemon_owner calm server_writeable [] (some sending) daemon_state
    ≡ some (pos 0, some all_sent, daemon_state)
unfolding handle_session on_event needs_session handle_writable send_data chunk_len after_write ◌-ℤ◌
    ◌+ℤ◌
writes_all = refl

handle_session-Wakes_example :
    (awaits_end sending ≡ true
      → awaits_end all_sent ≡ false
      → send_signals sending.calls < send_signals all_sent.calls)
    × (awaits_frame sending ≡ true
        → awaits_frame all_sent ≡ false
        → recv_signals sending.calls < recv_signals all_sent.calls)
handle_session-Wakes_example =
    handle_session-Wakes daemon_owner calm server_writeable [] (pos 0) sending all_sent daemon_state
      daemon_state (λ u. still u) refl writes_all

send_returns_example :
    (s : Session) × (u : daemon_owner.State) × (send_run daemon_owner calm
        (calm ∷ [])
        message
        (session_at (pos 0) [])
        daemon_state
      ≡ some (s, u))
    × (send_finish s ≡ some (pos 3))
    × (wire s.calls ≡ message)
send_returns_example =
    send_returns (calm ∷ []) message (session_at (pos 0) []) (calm-TakesAll, tt) (omega arith)
      (omega arith) daemon_owner calm daemon_state calm-IsFair.accepts refl

check_session_lem_example :
    let ctx = daemon_state.service_ctx in
    let r = check_session calm ctx (session_at (pos 0) []) in
    (IsDead calm ctx (session_at (pos 0) []) × DeadOutcome calm ctx (session_at (pos 0) []) r)
    ⊎ ((¬ IsDead calm ctx (session_at (pos 0) []))
        × AliveOutcome calm ctx (session_at (pos 0) []) r)
check_session_lem_example = check_session_lem calm daemon_state.service_ctx (session_at (pos 0) [])
