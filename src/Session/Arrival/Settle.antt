-- ===== src/Session/Arrival/Settle.antt =====
-- No frame is left to a receiver that waits, and no end is missed.
use usbws_lws.Base.{
  ◌∙◌, List, ℕ, ◌≡◌, ◌⊎◌, inl, inr, refl, Bool, true, false, ◌&&◌, some, [], arith, ℤ, pos, negsuc,
  Bool-cases, if◌then◌else◌,
}
use usbws_lws.Condition.{goes, Runs-Reached, Reached, Runs, stays, Comes, step-Comes}
use usbws_lws.Condition.Count.{AtRest}
use usbws_lws.Session.Recv.{is_empty}
use usbws_lws.Session.Recv.Account.{recv_pass-Accounts}
use usbws_lws.Session.Arrival.{
  Job, ReceiverAt, looping, locking, testing, waiting, woken, checking, failing, leaving, answered,
  Inbox, Arrival, is_waiting, pass, is_enough, receiver_step, arrival,
}
use usbws_lws.Session.Arrival.Answer.{IsAnswer, receiver_answers}
use usbws_lws.Session.Arrival.Discipline.{receiver_holds, is_ready, arrival-rests}

-- The receiver is back, or it waits for a frame of a session that goes on and has none.
abbrev Halted : Arrival → Type 0
Halted m =
    ((r : ℤ) × (m.at ≡ answered r))
    ⊎ ((m.at ≡ waiting) × (m.shared.cont ≡ true) × (m.shared.queue ≡ []))

module _ (len : ℕ) (all : Bool) where
  abbrev Settles : Arrival → Type 0
  Settles m = Comes (arrival len all) Halted m

  by_step : (m n : Arrival) → receiver_step len all m ≡ some n → Settles n → Settles m
  by_step m n e h = step-Comes (arrival len all) Halted m n e h

  answered-Settles : (m : Arrival) (r : ℤ) → m.at ≡ answered r → Settles m
  answered-Settles m r at = (m, stays m, inl (r, at))

  failing-Settles : (m : Arrival) → m.at ≡ failing → Settles m
  unfolding receiver_step
  failing-Settles m at =
      let n : Arrival = record m { locked = false; at = answered (negsuc 0) } in
      by_step m n (ground arith) (answered-Settles n (negsuc 0) refl)

  checking_off-Settles : (m : Arrival) → m.at ≡ checking → m.shared.cont ≡ false → Settles m
  unfolding receiver_step
  checking_off-Settles m at off =
      let n : Arrival = record m { at = failing } in
      by_step m n (ground arith) (failing-Settles n refl)

  -- With an empty queue no pass is made.
  testing_empty-Settles : (m : Arrival) → m.at ≡ testing → m.shared.queue ≡ [] → Settles m
  unfolding receiver_step
  testing_empty-Settles m at empty = elim (Bool-cases m.shared.cont) [
    | inl on ↦
        let n : Arrival = record m { locked = false; at = waiting } in
        by_step m n (ground arith) (n, stays n, inr (refl, on, empty))
    | inr off ↦
        let n : Arrival = record m { at = checking } in
        by_step m n (ground arith) (checking_off-Settles n refl off)
  ]

  -- With the lock taken, at the test.
  abbrev under_lock : Arrival → Arrival
  under_lock m = record m { locked = true; at = testing }

  locking-Settles :
      (m : Arrival)
      → (m.at ≡ locking) ⊎ (m.at ≡ woken)
      → m.locked ≡ false
      → Settles (under_lock m)
      → Settles m
  unfolding receiver_step
  locking-Settles m at free next = by_step m (under_lock m) (ground arith) next

  looping-Settles :
      (m : Arrival) → m.at ≡ looping → m.locked ≡ false → Settles (under_lock m) → Settles m
  unfolding receiver_step
  looping-Settles m at free next = elim (Bool-cases m.shared.cont) [
    | inl on ↦
        let n : Arrival = record m { at = locking } in
        by_step m n (ground arith) (locking-Settles n (inl refl) free next)
    | inr off ↦
        let n : Arrival = record m { at = answered (pos m.shared.total) } in
        by_step m n (ground arith) (answered-Settles n (pos m.shared.total) refl)
  ]

  leaving-Settles :
      (m : Arrival)
      → m.at ≡ leaving
      → (is_enough len all m.shared ≡ true) ⊎ Settles (under_lock m)
      → Settles m
  unfolding receiver_step
  leaving-Settles m at next = elim (Bool-cases (is_enough len all m.shared)) [
    | inl done ↦
        let n : Arrival = record m { locked = false; at = answered (pos m.shared.total) } in
        by_step m n (ground arith) (answered-Settles n (pos m.shared.total) refl)
    | inr more ↦ elim next [
      | inl done ↦ cc
      | inr next ↦
          let n : Arrival = record m { locked = false; at = looping } in
          by_step m n (ground arith) (looping-Settles n refl refl next)
    ]
  ]

  -- The pass empties the queue, or ends the call.
  checking-Settles : (m : Arrival) → m.at ≡ checking → Settles m
  unfolding receiver_step
  checking-Settles m at = elim (Bool-cases m.shared.cont) [
    | inl on ↦
        let b = m.shared in
        let n : Arrival = record m { shared = pass len all b; at = leaving } in
        let h = recv_pass-Accounts len b.queue b.offset b.total b.dbuf in
        by_step m n (ground arith) (
          leaving-Settles n refl (elim h.stops [
            | inl empty ↦ inr (testing_empty-Settles (under_lock n) refl empty)
            | inr enough ↦ inl (ground (arith, enough))
          ]))
    | inr off ↦ checking_off-Settles m at off
  ]

  testing-Settles : (m : Arrival) → m.at ≡ testing → Settles m
  unfolding receiver_step
  testing-Settles m at = elim (Bool-cases (m.shared.cont && is_empty m.shared.queue)) [
    | inl waits ↦ testing_empty-Settles m at (ground arith)
    | inr goes_on ↦
        let n : Arrival = record m { at = checking } in
        by_step m n (ground arith) (checking-Settles n refl)
  ]

  -- The receiver is back, with an answer; or it waits for a frame of a session that goes on and has
  -- none.
  abbrev pub Settled : Arrival → Type 0
  Settled m =
      ((r : ℤ) × (m.at ≡ answered r) × IsAnswer len all m.shared r)
      ⊎ ((m.at ≡ waiting) × (m.shared.cont ≡ true) × (m.shared.queue ≡ []))

  receiver-Settles :
      (b : Inbox) (plans : List (List Job)) (m : Arrival)
      → Reached (arrival len all) b looping plans m
      → AtRest m.workers
      → Settles m
  receiver-Settles b plans m run rest = from m.at refl
    where
      quiet :
          (receiver_holds m.at ≡ (if m.locked then 1 else 0))
          × ((is_waiting m.at && is_ready m.shared) ≡ false)
      quiet = arrival-rests len all b plans m run rest

      tested : Settles (under_lock m)
      tested = testing-Settles (under_lock m) refl

      from : (at : ReceiverAt) → m.at ≡ at → Settles m
      from looping e = looping-Settles m e (ground (arith, quiet.0)) tested
      from locking e = locking-Settles m (inl e) (ground (arith, quiet.0)) tested
      from testing e = testing-Settles m e
      from waiting e = (m, stays m, inr (e, ground (arith, quiet.1), ground (arith, quiet.1)))
      from woken e = locking-Settles m (inr e) (ground (arith, quiet.0)) tested
      from checking e = checking-Settles m e
      from failing e = failing-Settles m e
      from leaving e = leaving-Settles m e (inr tested)
      from (answered r) e = answered-Settles m r e

  -- Whatever the order of the threads' steps, with any number of other threads and any calls of
  -- theirs, and with wake-ups of itself: where no other thread is within a call, `usbws_recv`
  -- comes by its own steps alone to its end, or it waits for a frame of a session that is not
  -- discontinued and whose queue is empty. No wake-up is lost, though `usbws_session_discontinue`
  -- sets its flag outside the lock and `usbws_session_close` empties the queue without a signal. At
  -- its end it answers -1 of a discontinued session; or the number of bytes in the buffer, less than
  -- twice as many as were asked for where that is not 0, and as many as were asked for, or more than
  -- none where not all are asked for, unless the session is discontinued.
  pub receiver_settles :
      (b : Inbox) (plans : List (List Job)) (m : Arrival)
      → b.total ≡ 0
      → b.dbuf ≡ []
      → Reached (arrival len all) b looping plans m
      → AtRest m.workers
      → (n : Arrival) × Runs (arrival len all) m n × Settled n
  receiver_settles b plans m none_yet empty run rest =
      let (n, more, halted) = receiver-Settles b plans m run rest in
      let reached = Runs-Reached (arrival len all) run more in
      (
        n,
        more,
        elim halted [
          | inl (r, at) ↦
              inl (r, at, receiver_answers len all b plans n r none_yet empty reached at)
          | inr waits ↦ inr waits
        ],
      )

  receiver_step-cont :
      (m n : Arrival) → receiver_step len all m ≡ some n → n.shared.cont ≡ m.shared.cont
  unfolding receiver_step
  receiver_step-cont m n e = ground arith

  Runs-cont : {m n : Arrival} → Runs (arrival len all) m n → n.shared.cont ≡ m.shared.cont
  Runs-cont (stays m) = refl
  Runs-cont (goes m n o e run) = Runs-cont run ∙ receiver_step-cont m n e

  -- Of a discontinued session `usbws_recv` comes to its end.
  pub receiver_ends :
      (b : Inbox) (plans : List (List Job)) (m : Arrival)
      → b.total ≡ 0
      → b.dbuf ≡ []
      → Reached (arrival len all) b looping plans m
      → AtRest m.workers
      → m.shared.cont ≡ false
      → (n : Arrival) × Runs (arrival len all) m n × ((r : ℤ) × (n.at ≡ answered r))
  receiver_ends b plans m none_yet empty run rest off =
      let (n, more, settled) = receiver_settles b plans m none_yet empty run rest in
      (
        n,
        more,
        elim settled [
          | inl (r, at, _) ↦ (r, at)
          | inr (_, on, _) ↦ absurd (ground (arith, Runs-cont more))
        ],
      )
