-- ===== src/Tests/Broadcasts.antt =====
-- A context with two connections: one sends, and the other has gone silent.
use usbws_lws.Base.{◌≡◌, ◌-ℤ◌, ◌+ℤ◌, refl, some, List, [], ◌∷◌, ℤ, pos}
use usbws_lws.Session.State.{
  Session, binary, written, callback_on_writable, cancel_service, signal_send, session_init,
}
use usbws_lws.Session.Write.{
  ◌>>=◌, handle_writable, send_data, chunk_len, after_write, handle_send_request,
  cancel_unless_sent,
}
use usbws_lws.Session.Callback.{handle_session, on_event, session_start, call_if_set}
use usbws_lws.Session.Callback.Reasons.{established, server_writeable, needs_session}
use usbws_lws.Session.Sender.{send_begin}
use usbws_lws.Session.Broadcast.{CallAll, CallsAll, visit, check_all, request_send}
use usbws_lws.Session.Broadcast.Each.{Each}
use usbws_lws.Session.Broadcast.Reach.{Checked, check_all-Checked}
use usbws_lws.Session.Connections.{Ledger, Serves, none_yet, opened, called, sent}
use usbws_lws.Session.Connections.Streams.{Streams, Serves-Streams}
use usbws_lws.Daemon.Hooks.{daemon_owner, hook_call, service_start_session}
use usbws_lws.Tests.Data.{calm, calm-IsFair, session_at, message, daemon_state, opening, delivered}

abbrev in_order : {State : Type 0} → CallAll State
in_order f conns st = visit f 0 conns st >>= λ (rest, u). some (pos 0, rest, u)

in_order-CallsAll : {State : Type 0} → CallsAll (in_order {State = State})
in_order-CallsAll f conns st = (pos 0, refl)

abbrev since_start : Ledger
since_start = record { old = session_at (pos 0) []; sent = []; granted = 0 }

abbrev asked : Session
asked = record (send_begin message opening) {
  send_buf = some message;
  send_len = pos 3;
  send_offset = pos 0;
  calls = cancel_service ∷ callback_on_writable ∷ [];
}

-- The second connection's message is written when it becomes writable.
abbrev answered : Session
answered = record delivered {
  calls =
      callback_on_writable
      ∷ signal_send
      ∷ written binary message (pos 3)
      ∷ cancel_service
      ∷ callback_on_writable
      ∷ [];
}

abbrev ledgers : List Ledger
ledgers = since_start ∷ record since_start { sent = message; granted = 1 } ∷ []

serves : Serves daemon_owner in_order ledgers (opening ∷ answered ∷ []) daemon_state
unfolding handle_session on_event needs_session session_start session_init call_if_set hook_call
    service_start_session request_send visit handle_send_request cancel_unless_sent send_begin
    handle_writable send_data chunk_len after_write ◌-ℤ◌ ◌+ℤ◌
serves =
    called 1 calm server_writeable [] (pos 0) asked daemon_state
      (sent 1 (λ i. calm) message (pos 0) opening daemon_state
        (opened calm established [] (pos 0) (session_at (pos 0) []) daemon_state
          (opened calm established [] (pos 0) (session_at (pos 0) []) daemon_state
            (none_yet daemon_state) refl refl)
          refl refl)
        refl refl (λ j. calm-IsFair) refl)
      refl calm-IsFair refl refl

Serves-Streams_example : Streams ledgers (opening ∷ answered ∷ [])
Serves-Streams_example = Serves-Streams daemon_owner in_order in_order-CallsAll serves

-- The first session is dead at 200 seconds, the second is not.
check_all-Checked_example :
    (ret : ℤ) × (after : List Session) × (check_all daemon_owner in_order
        (λ i. calm)
        (session_at (pos 0) [] ∷ session_at (pos 190) [] ∷ [])
        daemon_state
      ≡ some (ret, after, daemon_state))
    × Each
        (λ i. Checked calm daemon_state.service_ctx)
        0
        (session_at (pos 0) [] ∷ session_at (pos 190) [] ∷ [])
        after
check_all-Checked_example =
    check_all-Checked daemon_owner in_order in_order-CallsAll (λ i. calm)
      (session_at (pos 0) [] ∷ session_at (pos 190) [] ∷ []) daemon_state
