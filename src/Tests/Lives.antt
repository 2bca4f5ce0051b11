-- ===== src/Tests/Lives.antt =====
-- The life of a session: a message goes out, a peer receives it, the session ends.
use usbws_lws.Base.{◌≡◌, ◌-ℤ◌, ◌+ℤ◌, refl, true, false, none, some, [], ◌∷◌, arith, pos, negsuc}
use usbws_lws.Session.State.{Session, Io, signal_recv, handled, session_init}
use usbws_lws.Session.Write.{handle_writable, send_data, chunk_len, after_write}
use usbws_lws.Session.Write.Steps.{Ensures}
use usbws_lws.Session.Write.Progress.{writable_each, IsIdle}
use usbws_lws.Session.Write.Failure.{handle_writable_fails}
use usbws_lws.Session.Health.{check_session}
use usbws_lws.Session.Recv.{recv, returned, handle_recv}
use usbws_lws.Session.Recv.Drain.{arrivals}
use usbws_lws.Session.Callback.{handle_session, on_event, session_start, call_if_set, received}
use usbws_lws.Session.Callback.Reasons.{established, receive, server_writeable, needs_session}
use usbws_lws.Session.Sender.{send_begin, send_finish}
use usbws_lws.Session.Sender.Race.{assign_buf, assign_len, send_races, send_races_truncated}
use usbws_lws.Session.Exchange.{send_then_recv}
use usbws_lws.Session.Life.{Life, opened, called, handed, Stream, Life-Stream}
use usbws_lws.Session.Life.Range.{InRange, Within, Life-InRange}
use usbws_lws.Session.Ended.{Runs, start, callback, discontinued_stays}
use usbws_lws.Daemon.Hooks.{daemon_owner, hook_call, service_start_session}
use usbws_lws.Tests.Data.{
  calm, calm-IsFair, calm-TakesAll, session_at, message, sending, daemon_state, opening, delivered,
}
use usbws_lws.Tests.Sessions.{run_send, send_finish-sent}

send_then_recv_example :
    (pos 3 ≡ pos 3)
    × ((t : Session) × (recv
            (arrivals calm ((1 ∷ []) ∷ (2 ∷ 3 ∷ []) ∷ []))
            3
            true
            (session_at (pos 0) [])
          ≡ returned (pos 3) message t)
        × (t.recv_queue ≡ []))
send_then_recv_example =
    send_then_recv daemon_owner calm (1 ∷ []) ((2 ∷ 3 ∷ []) ∷ []) (session_at (pos 0) []) run_send
      send_finish-sent refl refl (omega arith) refl refl refl refl refl

-- A message that the session is slow to send: the last one had four bytes.
abbrev stale : Session
stale = record (session_at (pos 190) []) { send_offset = pos 2 }

send_races_example :
    handle_session daemon_owner calm server_writeable []
      (some (assign_buf message stale))
      daemon_state
    ≡ none
send_races_example = send_races daemon_owner calm message stale daemon_state 1 refl refl

send_races_truncated_example :
    Ensures
      (IsIdle (3 ∷ []))
      (writable_each (calm ∷ []) (assign_len message (assign_buf message stale)))
send_races_truncated_example =
    send_races_truncated (calm ∷ []) message stale 2 (calm-TakesAll, tt) refl (omega arith)
      (omega arith) (omega arith)

-- A connection whose writes fail.
abbrev broken : Io
broken = record calm { lws_write = λ kind bytes. negsuc 0 }

handle_writable_fails_example :
    (t : Session) × (handle_writable broken sending ≡ some (negsuc 0, t))
    × (t.send_buf ≡ some message)
    × (t.send_offset ≡ negsuc 0)
    × (handle_writable calm t ≡ none)
handle_writable_fails_example =
    handle_writable_fails broken sending message refl (refl, refl, omega arith) refl calm refl

unfoldable life : Life daemon_owner (session_at (pos 0) []) message 1 delivered daemon_state
unfolding handle_session on_event needs_session session_start session_init call_if_set hook_call
    service_start_session handle_writable send_data chunk_len after_write send_begin ◌-ℤ◌ ◌+ℤ◌
life =
    called calm server_writeable [] (pos 0) (send_begin message opening) daemon_state
      (handed message (opened calm established [] (pos 0) daemon_state refl refl) refl) calm-IsFair
      refl refl

Life-Stream_example : Stream (session_at (pos 0) []) message 1 delivered
Life-Stream_example = Life-Stream daemon_owner (session_at (pos 0) []) life

Life-InRange_example : InRange 3 delivered
unfolding life Within
Life-InRange_example = Life-InRange daemon_owner (session_at (pos 0) []) 3 life (omega arith, tt)

abbrev ended : Session
ended = record (session_at (pos 190) []) { cont = false }

-- After another frame has come.
abbrev ended_later : Session
ended_later = record ended { stamp = pos 200; recv_queue = (1 ∷ []) ∷ []; calls = signal_recv ∷ [] }

ended_run : Runs daemon_owner ended daemon_state ended_later daemon_state
unfolding handle_session on_event needs_session received handled handle_recv
ended_run = callback calm receive (1 ∷ []) (pos 0) ended daemon_state start refl refl

discontinued_stays_example :
    (send_finish ended_later ≡ some (negsuc 0))
    × (recv [] 4 true ended_later ≡ returned (pos 0) [] ended_later)
    × ((check_session calm daemon_state.service_ctx ended_later).0 ≡ negsuc 0)
discontinued_stays_example = discontinued_stays daemon_owner [] 4 true calm ended_run refl
