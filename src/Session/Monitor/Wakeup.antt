-- ===== src/Session/Monitor/Wakeup.antt =====
-- No wake-up of a sender is lost.
use usbws_lws.Base.{
  ℕ, ◌+◌, ◌≡◌, ◌⊎◌, inl, inr, refl, Bool, true, false, not, ◌&&◌, some, List, arith, ℤ,
  if◌then◌else◌,
}
use usbws_lws.Condition.{Runs-Reached, Reached, Runs, stays, Comes, step-Comes}
use usbws_lws.Condition.Count.{AtRest, IsProper, holds}
use usbws_lws.Condition.Sound.{Discipline, rests}
use usbws_lws.Session.Monitor.Early.{IsAnswer, sender_answers}
use usbws_lws.Session.Monitor.{
  SenderAt, entering, testing, waiting, woken, leaving, reading, answered, Change, flags, empties,
  advances, Job, discontinuing, sending, ending, Outbox, Monitor, flag_instrs, end_instrs,
  job_instrs, change, awake, is_waiting, result, sender_step, monitor,
}

abbrev sender_holds : SenderAt → ℕ
sender_holds testing = 1
sender_holds leaving = 1
sender_holds _ = 0

-- The session is discontinued, or the message has been sent to its end.
abbrev pub is_over : Outbox → Bool
is_over b = not (b.cont && b.pending)

abbrev tells : Change → Bool
tells (advances sent) = false
tells _ = true

job_instrs-IsProper : (j : Job) → IsProper tells (job_instrs j) × (holds (job_instrs j) ≡ 0)
unfolding job_instrs flag_instrs end_instrs
job_instrs-IsProper discontinuing = ((inr refl, (refl, (refl, tt))), refl)
job_instrs-IsProper (sending sent) = ((inl refl, tt), refl)
job_instrs-IsProper (ending sent) = ((inl refl, (refl, (inr refl, (refl, tt)))), refl)

change-tells :
    (e : Change) (b : Outbox) → tells e ≡ false → is_over b ≡ false → is_over (change e b) ≡ false
unfolding change
change-tells flags b = λ t r. cc
change-tells empties b = λ t r. cc
change-tells (advances sent) b = λ t r. r

sender_step-keeps :
    (m n : Monitor) (k : ℕ)
    → sender_holds m.at + k ≡ (if m.locked then 1 else 0)
    → sender_step m ≡ some n
    → (n.workers ≡ m.workers)
      × (sender_holds n.at + k ≡ (if n.locked then 1 else 0))
      × ((is_waiting n.at && is_over n.shared) ≡ false)
unfolding sender_step
sender_step-keeps m n k h e = (ground (arith, h), ground (arith, h), ground (arith, h))

awake-woken :
    (at : SenderAt) → (sender_holds (awake at) ≡ sender_holds at) × (is_waiting (awake at) ≡ false)
awake-woken at = (ground arith, ground arith)

abbrev monitor_discipline : Discipline monitor
monitor_discipline = record {
  at_holds = sender_holds;
  ready = is_over;
  tells = tells;
  woken = awake-woken;
  told = change-tells;
  proper = job_instrs-IsProper;
  steps = sender_step-keeps;
}

abbrev IsBack : Monitor → Type 0
IsBack m = (r : ℤ) × (m.at ≡ answered r)

abbrev Returns : Monitor → Type 0
Returns m = Comes monitor IsBack m

reading-Returns : (m : Monitor) → m.at ≡ reading → Returns m
unfolding sender_step
reading-Returns m at =
    let n : Monitor = record m { at = answered (result m.shared) } in
    step-Comes monitor IsBack m n (ground arith) (n, stays n, (_, refl))

leaving-Returns : (m : Monitor) → m.at ≡ leaving → Returns m
unfolding sender_step
leaving-Returns m at =
    let n : Monitor = record m { locked = false; at = reading } in
    step-Comes monitor IsBack m n (ground arith) (reading-Returns n refl)

testing-Returns : (m : Monitor) → m.at ≡ testing → is_over m.shared ≡ true → Returns m
unfolding sender_step
testing-Returns m at over =
    let n : Monitor = record m { at = leaving } in
    step-Comes monitor IsBack m n (ground arith) (leaving-Returns n refl)

locking-Returns :
    (m : Monitor)
    → (m.at ≡ entering) ⊎ (m.at ≡ woken)
    → m.locked ≡ false
    → is_over m.shared ≡ true
    → Returns m
unfolding sender_step
locking-Returns m at free over =
    let n : Monitor = record m { locked = true; at = testing } in
    step-Comes monitor IsBack m n (ground arith) (testing-Returns n refl over)

over-Returns :
    (b : Outbox) (plans : List (List Job)) (m : Monitor)
    → Reached monitor b entering plans m
    → AtRest m.workers
    → is_over m.shared ≡ true
    → Returns m
over-Returns b plans m run rest over = from m.at refl
  where
    quiet :
        (sender_holds m.at ≡ (if m.locked then 1 else 0))
        × ((is_waiting m.at && is_over m.shared) ≡ false)
    quiet = rests monitor monitor_discipline refl refl run rest

    from : (at : SenderAt) → m.at ≡ at → Returns m
    from entering e = locking-Returns m (inl e) (ground (arith, quiet.0)) over
    from testing e = testing-Returns m e over
    from waiting e = absurd (ground (arith, quiet.1))
    from woken e = locking-Returns m (inr e) (ground (arith, quiet.0)) over
    from leaving e = leaving-Returns m e
    from reading e = reading-Returns m e
    from (answered r) e = (m, stays m, (r, e))

-- Whatever the order of the threads' steps, with any number of threads that send parts and the end
-- of the message or discontinue the session, and with wake-ups of itself: once the session is
-- discontinued or the message has been sent to its end, and no other thread is within a call,
-- `usbws_send` returns by its own steps alone. No wake-up is lost, though
-- `usbws_session_discontinue` sets its flag outside the lock. What it returns is -1 of a
-- discontinued session, or the message has been sent to its end.
pub sender_returns :
    (b : Outbox) (plans : List (List Job)) (m : Monitor)
    → Reached monitor b entering plans m
    → AtRest m.workers
    → is_over m.shared ≡ true
    → (n : Monitor) × Runs monitor m n × ((r : ℤ) × (n.at ≡ answered r) × IsAnswer n.shared r)
sender_returns b plans m run rest over =
    let (n, more, (r, at)) = over-Returns b plans m run rest over in
    (n, more, (r, at, sender_answers b plans n r (Runs-Reached monitor run more) at))
