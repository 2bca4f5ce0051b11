-- ===== src/Tests/Arrivals.antt =====
-- A run of a receiver: it waits, a frame comes and wakes it, and the session is to be closed.
use usbws_lws.Base.{refl, true, false, List, [], ◌∷◌, ℕ}
use usbws_lws.Condition.{Reached, began, stepped, worked, Runs, worker_step, perform}
use usbws_lws.Session.Arrival.{
  Job, handling, closing, Arrival, looping, woken, inbox, arrival, receiver_step, change,
  job_instrs, handle_recv_instrs,
}
use usbws_lws.Session.Arrival.Settle.{Settled, receiver_settles}

abbrev frame : List ℕ
frame = 1 ∷ 2 ∷ 3 ∷ []

abbrev woken_receiver : Arrival
woken_receiver = record {
  shared = inbox true (frame ∷ []) 0;
  locked = false;
  at = woken;
  workers = record { current = []; jobs = closing ∷ [] } ∷ [];
}

abbrev plans : List (List Job)
plans = (handling frame ∷ closing ∷ []) ∷ []

arrived : Reached (arrival 8 false) (inbox true [] 0) looping plans woken_receiver
unfolding receiver_step worker_step perform change job_instrs handle_recv_instrs
arrived =
    let start = began in
    let waits = stepped (stepped (stepped start refl) refl) refl in
    let added = worked 0 _ (worked 0 _ (worked 0 _ waits refl refl) refl refl) refl refl in
    worked 0 _ (worked 0 _ added refl refl) refl refl

receiver_settles_example :
    (n : Arrival) × Runs (arrival 8 false) woken_receiver n × Settled 8 false n
receiver_settles_example =
    receiver_settles 8 false (inbox true [] 0) plans woken_receiver refl refl arrived (refl, tt)
