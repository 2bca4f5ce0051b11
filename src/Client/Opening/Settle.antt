-- ===== src/Client/Opening/Settle.antt =====
-- No report of a callback is missed by the thread that opens.
use usbws_lws.Base.{
  ℕ, ◌+◌, ◌≡◌, ◌⊎◌, inl, inr, refl, Bool, true, false, ◌&&◌, some, List, arith, ℤ, is_true,
  Bool-cases, if◌then◌else◌,
}
use usbws_lws.Condition.{Reached, Runs, stays, Comes, step-Comes}
use usbws_lws.Condition.Count.{AtRest, IsProper, holds}
use usbws_lws.Condition.Sound.{Discipline, rests}
use usbws_lws.Client.State.{Client}
use usbws_lws.Client.Start.{Compiled}
use usbws_lws.Client.Opening.{
  OpenerAt, entering, testing, waiting, woken, leaving, reading, answered, Deed, knows, forgets,
  stops, destroys, sets, Event, starting, stopping, interrupting, finishing, Opening, notify_instrs,
  start_instrs, stop_instrs, event_instrs, awake, is_waiting, answer, opener_step, deed, opening,
}

abbrev opener_holds : OpenerAt → ℕ
opener_holds testing = 1
opener_holds leaving = 1
opener_holds _ = 0

abbrev is_reported : Client → Bool
is_reported c = is_true c.started

abbrev tells : Deed → Bool
tells (sets val) = true
tells _ = false

event_instrs-IsProper : (j : Event) → IsProper tells (event_instrs j) × (holds (event_instrs j) ≡ 0)
unfolding event_instrs start_instrs stop_instrs notify_instrs
event_instrs-IsProper (starting wsi) = ((inl refl, (refl, (inr refl, (refl, tt)))), refl)
event_instrs-IsProper stopping = ((inl refl, (inl refl, (refl, (inr refl, (refl, tt))))), refl)
event_instrs-IsProper interrupting = ((inl refl, tt), refl)
event_instrs-IsProper finishing = ((inl refl, tt), refl)

deed-tells :
    (k : Compiled) (e : Deed) (c : Client)
    → tells e ≡ false
    → is_reported c ≡ false
    → is_reported (deed k e c) ≡ false
unfolding deed
deed-tells k (knows wsi) c = λ t r. r
deed-tells k forgets c = λ t r. r
deed-tells k stops c = λ t r. r
deed-tells k destroys c = λ t r. r
deed-tells k (sets val) c = λ t r. cc

opener_step-keeps :
    (m n : Opening) (k : ℕ)
    → opener_holds m.at + k ≡ (if m.locked then 1 else 0)
    → opener_step m ≡ some n
    → (n.workers ≡ m.workers)
      × (opener_holds n.at + k ≡ (if n.locked then 1 else 0))
      × ((is_waiting n.at && is_reported n.shared) ≡ false)
unfolding opener_step
opener_step-keeps m n k h e = (ground (arith, h), ground (arith, h), ground (arith, h))

awake-woken :
    (at : OpenerAt) → (opener_holds (awake at) ≡ opener_holds at) × (is_waiting (awake at) ≡ false)
awake-woken at = (ground arith, ground arith)

abbrev opening_discipline : (k : Compiled) → Discipline (opening k)
opening_discipline k = record {
  at_holds = opener_holds;
  ready = is_reported;
  tells = tells;
  woken = awake-woken;
  told = deed-tells k;
  proper = event_instrs-IsProper;
  steps = opener_step-keeps;
}

-- The thread that opens is back, or it waits for a report where none has come.
abbrev pub Settled : Opening → Type 0
Settled m =
    ((r : ℤ) × (m.at ≡ answered r)) ⊎ ((m.at ≡ waiting) × (is_true m.shared.started ≡ false))

module _ (k : Compiled) where
  abbrev Settles : Opening → Type 0
  Settles m = Comes (opening k) Settled m

  by_step : (m n : Opening) → opener_step m ≡ some n → Settles n → Settles m
  by_step m n e h = step-Comes (opening k) Settled m n e h

  reading-Settles : (m : Opening) → m.at ≡ reading → Settles m
  unfolding opener_step
  reading-Settles m at =
      let n : Opening = record m { at = answered (answer m.shared.started) } in
      by_step m n (ground arith) (n, stays n, inl (_, refl))

  leaving-Settles : (m : Opening) → m.at ≡ leaving → Settles m
  unfolding opener_step
  leaving-Settles m at =
      let n : Opening = record m { locked = false; at = reading } in
      by_step m n (ground arith) (reading-Settles n refl)

  testing-Settles : (m : Opening) → m.at ≡ testing → Settles m
  unfolding opener_step
  testing-Settles m at = elim (Bool-cases (is_true m.shared.started)) [
    | inl reported ↦
        let n : Opening = record m { at = leaving } in
        by_step m n (ground arith) (leaving-Settles n refl)
    | inr none_yet ↦
        let n : Opening = record m { locked = false; at = waiting } in
        by_step m n (ground arith) (n, stays n, inr (refl, none_yet))
  ]

  locking-Settles :
      (m : Opening) → (m.at ≡ entering) ⊎ (m.at ≡ woken) → m.locked ≡ false → Settles m
  unfolding opener_step
  locking-Settles m at free =
      let n : Opening = record m { locked = true; at = testing } in
      by_step m n (ground arith) (testing-Settles n refl)

  -- Whatever the order of the steps of the client's threads, with wake-ups of themselves: where none
  -- of them is within a callback, `usbws_client_wait_start` comes by its own steps alone to its end,
  -- or it waits and `started` is 0. No report of a callback is lost.
  pub opener_settles :
      (c : Client) (plans : List (List Event)) (m : Opening)
      → Reached (opening k) c entering plans m
      → AtRest m.workers
      → (n : Opening) × Runs (opening k) m n × Settled n
  opener_settles c plans m run rest = from m.at refl
    where
      quiet :
          (opener_holds m.at ≡ (if m.locked then 1 else 0))
          × ((is_waiting m.at && is_reported m.shared) ≡ false)
      quiet = rests (opening k) (opening_discipline k) refl refl run rest

      from : (at : OpenerAt) → m.at ≡ at → Settles m
      from entering e = locking-Settles m (inl e) (ground (arith, quiet.0))
      from testing e = testing-Settles m e
      from waiting e = (m, stays m, inr (e, ground (arith, quiet.1)))
      from woken e = locking-Settles m (inr e) (ground (arith, quiet.0))
      from leaving e = leaving-Settles m e
      from reading e = reading-Settles m e
      from (answered r) e = (m, stays m, inl (r, e))
