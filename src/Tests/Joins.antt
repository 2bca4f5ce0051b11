-- ===== src/Tests/Joins.antt =====
-- A connection closes while the thread of its session waits for a frame, or for the end of a message.
use usbws_lws.Base.{◌≡◌, refl, true, false, some, [], ◌∷◌, ◌++◌, ℤ, pos, arith}
use usbws_lws.Condition.{Reached, began, stepped, worked, Runs, worker_step, perform}
use usbws_lws.Session.State.{Session}
use usbws_lws.Session.Callback.{handle_session}
use usbws_lws.Session.Callback.Reasons.{closed}
use usbws_lws.Session.Arrival
use usbws_lws.Session.Arrival.{
  Arrival, looping, inbox, arrival, receiver_step, close_instrs, discontinue_instrs,
}
use usbws_lws.Session.Monitor
use usbws_lws.Session.Monitor.{Monitor, monitor, outbox, sender_step, flag_instrs}
use usbws_lws.Daemon.Hooks.{daemon_owner, Join}
use usbws_lws.Daemon.Joins.{closed_joins, closed_join_ends}
use usbws_lws.Tests.Data.{calm, session_at, daemon_state}

abbrev serving : Session
serving = session_at (pos 0) []

closes :
    (t : Session) × (handle_session daemon_owner calm closed [] (some serving) daemon_state
      ≡ some
          (pos 0, some t, record daemon_state { joined = record { tid = 5; cont = false } ∷ [] }))
    × (t.cont ≡ false)
    × (t.recv_queue ≡ [])
closes = closed_joins calm [] serving daemon_state (λ t. refl) refl (omega arith)

abbrev joined_last : Join
joined_last = record { tid = 5; cont = false }

abbrev reading : Arrival
reading = record {
  shared = record (inbox true [] 0) { cont = false };
  locked = false;
  at = Arrival.woken;
  workers = record { current = []; jobs = [] } ∷ [];
}

read_closed :
    Reached (arrival 8 false) (inbox true [] 0) looping ((Arrival.closing ∷ []) ∷ []) reading
unfolding receiver_step worker_step perform Arrival.change Arrival.job_instrs close_instrs
    discontinue_instrs
read_closed =
    let waits = stepped (stepped (stepped began refl) refl) refl in
    let emptied = worked 0 _ (worked 0 _ (worked 0 _ waits refl refl) refl refl) refl refl in
    let flagged = worked 0 _ (worked 0 _ (worked 0 _ emptied refl refl) refl refl) refl refl in
    worked 0 _ (worked 0 _ flagged refl refl) refl refl

abbrev sending : Monitor
sending = record {
  shared = record (outbox (pos 0)) { cont = false };
  locked = false;
  at = Monitor.woken;
  workers = record { current = []; jobs = [] } ∷ [];
}

send_closed :
    Reached monitor (outbox (pos 0)) Monitor.entering ((Monitor.discontinuing ∷ []) ∷ []) sending
unfolding sender_step worker_step perform Monitor.change Monitor.job_instrs flag_instrs
send_closed =
    let waits = stepped (stepped began refl) refl in
    let flagged = worked 0 _ (worked 0 _ (worked 0 _ waits refl refl) refl refl) refl refl in
    worked 0 _ (worked 0 _ flagged refl refl) refl refl

closed_join_ends_example :
    (joined_last ∷ [] ≡ [] ++ record { tid = serving.tid; cont = false } ∷ [])
    × ((n : Arrival) × Runs (arrival 8 false) reading n × ((r : ℤ) × (n.at ≡ Arrival.answered r)))
    × ((n : Monitor) × Runs monitor sending n × ((r : ℤ) × (n.at ≡ Monitor.answered r)))
closed_join_ends_example =
    closed_join_ends calm [] serving daemon_state (λ t. refl) refl (omega arith) closes.0
      (record daemon_state { joined = record { tid = 5; cont = false } ∷ [] }) (pos 0) joined_last
      closes.1 refl 8 false (inbox true [] 0) ((Arrival.closing ∷ []) ∷ []) reading refl refl
      read_closed (refl, tt) refl (outbox (pos 0)) ((Monitor.discontinuing ∷ []) ∷ []) sending
      send_closed (refl, tt) refl
