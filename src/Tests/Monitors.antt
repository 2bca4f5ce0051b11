-- ===== src/Tests/Monitors.antt =====
-- A run of the monitor: the sender waits, the end of the message wakes it.
use usbws_lws.Base.{ℤ, ◌≡◌, refl, true, false, List, [], ◌∷◌, pos, ◌+ℤ◌}
use usbws_lws.Condition.{Reached, began, stepped, worked, Runs, worker_step, perform}
use usbws_lws.Session.Monitor.{
  answered, Job, ending, discontinuing, Monitor, entering, woken, monitor, outbox, sender_step,
  change, job_instrs, end_instrs,
}
use usbws_lws.Session.Monitor.Wakeup.{sender_returns}
use usbws_lws.Session.Monitor.Early.{IsAnswer}

abbrev plans : List (List Job)
plans = (ending (pos 3) ∷ []) ∷ (discontinuing ∷ []) ∷ []

abbrev woken_sender : Monitor
woken_sender = record {
  shared = record { cont = true; pending = false; send_offset = pos 3 };
  locked = false;
  at = woken;
  workers =
      record { current = []; jobs = [] } ∷ record { current = []; jobs = discontinuing ∷ [] } ∷ [];
}

waited : Reached monitor (outbox (pos 0)) entering plans woken_sender
unfolding sender_step worker_step perform change job_instrs end_instrs ◌+ℤ◌
waited =
    let waits = stepped (stepped began refl) refl in
    let moved = worked 0 _ (worked 0 _ waits refl refl) refl refl in
    let cleared = worked 0 _ (worked 0 _ moved refl refl) refl refl in
    worked 0 _ (worked 0 _ cleared refl refl) refl refl

sender_returns_example :
    (n : Monitor) × Runs monitor woken_sender n
    × ((r : ℤ) × (n.at ≡ answered r) × IsAnswer n.shared r)
sender_returns_example =
    sender_returns (outbox (pos 0)) plans woken_sender waited (refl, (refl, tt)) refl
