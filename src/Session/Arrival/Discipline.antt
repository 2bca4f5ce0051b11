-- ===== src/Session/Arrival/Discipline.antt =====
-- The receiver and the other threads keep to the discipline of a lock with a condition.
use usbws_lws.Base.{
  List, ℕ, ◌+◌, ◌≡◌, inl, inr, refl, Bool, true, false, not, ◌&&◌, ◌||◌, some, arith, if◌then◌else◌,
}
use usbws_lws.Condition.{Reached}
use usbws_lws.Condition.Count.{AtRest, IsProper, holds}
use usbws_lws.Condition.Sound.{Discipline, rests}
use usbws_lws.Session.Recv.{is_empty}
use usbws_lws.Session.Arrival.{
  ReceiverAt, looping, testing, checking, failing, leaving, Change, flags, clears, adds, Job,
  handling, looking, discontinuing, closing, Inbox, Arrival, job_instrs, discontinue_instrs,
  close_instrs, handle_recv_instrs, wait_recv_instrs, change, awake, is_waiting, receiver_step,
  arrival,
}

abbrev pub receiver_holds : ReceiverAt → ℕ
receiver_holds testing = 1
receiver_holds checking = 1
receiver_holds failing = 1
receiver_holds leaving = 1
receiver_holds _ = 0

abbrev pub is_ready : Inbox → Bool
is_ready b = not b.cont || not (is_empty b.queue)

abbrev tells : Change → Bool
tells clears = false
tells _ = true

job_instrs-IsProper : (j : Job) → IsProper tells (job_instrs j) × (holds (job_instrs j) ≡ 0)
unfolding job_instrs discontinue_instrs close_instrs handle_recv_instrs wait_recv_instrs
job_instrs-IsProper (handling frame) = ((refl, (inr refl, (refl, tt))), refl)
job_instrs-IsProper looking = ((refl, (refl, tt)), refl)
job_instrs-IsProper discontinuing = ((inr refl, (refl, (refl, tt))), refl)
job_instrs-IsProper closing = ((refl, (inl refl, (refl, (inr refl, (refl, (refl, tt)))))), refl)

change-tells :
    (e : Change) (b : Inbox) → tells e ≡ false → is_ready b ≡ false → is_ready (change e b) ≡ false
unfolding change
change-tells flags b = λ t r. cc
change-tells clears b = λ t r. ground arith
change-tells (adds frame) b = λ t r. cc

module _ (len : ℕ) (all : Bool) where
  receiver_step-keeps :
      (m n : Arrival) (k : ℕ)
      → receiver_holds m.at + k ≡ (if m.locked then 1 else 0)
      → receiver_step len all m ≡ some n
      → (n.workers ≡ m.workers)
        × (receiver_holds n.at + k ≡ (if n.locked then 1 else 0))
        × ((is_waiting n.at && is_ready n.shared) ≡ false)
  unfolding receiver_step
  receiver_step-keeps m n k h e = (ground (arith, h), ground (arith, h), ground (arith, h))

  awake-woken :
      (at : ReceiverAt)
      → (receiver_holds (awake at) ≡ receiver_holds at) × (is_waiting (awake at) ≡ false)
  awake-woken at = (ground arith, ground arith)

  abbrev arrival_discipline : Discipline (arrival len all)
  arrival_discipline = record {
    at_holds = receiver_holds;
    ready = is_ready;
    tells = tells;
    woken = awake-woken;
    told = change-tells;
    proper = job_instrs-IsProper;
    steps = receiver_step-keeps;
  }

  pub arrival-rests :
      (b : Inbox) (plans : List (List Job)) (m : Arrival)
      → Reached (arrival len all) b looping plans m
      → AtRest m.workers
      → (receiver_holds m.at ≡ (if m.locked then 1 else 0))
        × ((is_waiting m.at && is_ready m.shared) ≡ false)
  arrival-rests b plans m run rest = rests (arrival len all) arrival_discipline refl refl run rest
