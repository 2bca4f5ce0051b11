-- ===== src/Condition/Sound.antt =====
-- What holds of the lock and the signals in every state that the threads come to.
use usbws_lws.Base.{
  get_elem?, modify, ℕ, ◌+◌, ◌≤◌, ◌≡◌, refl, Bool, true, false, ◌&&◌, some, List, [], ◌∷◌, arith,
  subst, if◌then◌else◌,
}
use usbws_lws.Condition.{
  Instr, locks, unlocks, signals, does, Worker, Room, Scheme, put, perform, worker_step, Reached,
  began, stepped, worked, woke,
}
use usbws_lws.Condition.Count.{
  holds, owes, IsProper, sum, AllProper, AtRest, AtRest-sum, idle_workers-sum, sum-modify,
  sum-modify_least, idle_workers-AllProper, AllProper-modify, get_elem-IsProper,
}

module _ {S E J At : Type 0} where
  -- What a use of the lock and its condition keeps to: `ready` is the condition, `tells` whether a
  -- change can make it hold.
  pub record Discipline (c : Scheme S E J At) : Type 0 where
    pub at_holds : At → ℕ
    pub ready : S → Bool
    pub tells : E → Bool
    pub woken :
        (at : At) → (at_holds (c.wake at) ≡ at_holds at) × (c.is_waiting (c.wake at) ≡ false)
    pub told : (e : E) (s : S) → tells e ≡ false → ready s ≡ false → ready (c.effect e s) ≡ false
    pub proper : (j : J) → IsProper tells (c.instrs j) × (holds (c.instrs j) ≡ 0)
    pub steps :
        (m n : Room S E J At) (k : ℕ)
        → at_holds m.at + k ≡ (if m.locked then 1 else 0)
        → c.step m ≡ some n
        → (n.workers ≡ m.workers)
          × (at_holds n.at + k ≡ (if n.locked then 1 else 0))
          × ((c.is_waiting n.at && ready n.shared) ≡ false)

  module _ (c : Scheme S E J At) (d : Discipline c) where
    -- As many threads hold the lock as it is taken; and where one waits for what has come to hold,
    -- a signal is on its way.
    pub record IsSound (m : Room S E J At) : Type 0 where
      pub counted : d.at_holds m.at + sum holds m.workers ≡ (if m.locked then 1 else 0)
      pub owed : (c.is_waiting m.at && d.ready m.shared) ≡ true → 1 ≤ sum owes m.workers
      pub proper : AllProper d.tells m.workers

    module _ (i : ℕ) (rest : List (Instr E)) (js : List J) (m : Room S E J At) (h : IsSound m) where
      abbrev went : Worker E J
      went = record { current = rest; jobs = js }

      abbrev At_ : Instr E → Type 0
      At_ a = get_elem? m.workers i ≡ some (record { current = a ∷ rest; jobs = js })

      abbrev after : List (Worker E J)
      after = modify m.workers i (λ _. went)

      held :
          (a : Instr E)
          → At_ a
          → sum holds after + holds (a ∷ rest) ≡ sum holds m.workers + holds rest
      held a at = sum-modify holds went m.workers i _ at

      owing :
          (a : Instr E) → At_ a → sum owes after + owes (a ∷ rest) ≡ sum owes m.workers + owes rest
      owing a at = sum-modify owes went m.workers i _ at

      left_owing : (a : Instr E) → At_ a → owes rest ≤ sum owes after
      left_owing a at = sum-modify_least owes went m.workers i _ at

      first : (a : Instr E) → At_ a → IsProper d.tells (a ∷ rest)
      first a at = get_elem-IsProper d.tells m.workers i _ at h.proper

      others :
          (n : Room S E J At)
          → IsProper d.tells rest
          → after ≡ n.workers
          → AllProper d.tells n.workers
      others n p e =
          subst (AllProper d.tells) e (AllProper-modify d.tells went m.workers i h.proper p)

      -- One step of a thread whose first instruction is `a`.
      perform-IsSound :
          (a : Instr E) (n : Room S E J At)
          → At_ a
          → perform c a (put i went m) ≡ some n
          → IsSound n
      unfolding perform
      perform-IsSound locks n at e =
          let p = first locks at in
          record {
            counted = ground (arith, h.counted, held locks at, p.0);
            owed = λ w. ground (arith, h.owed, owing locks at);
            proper = others n p.1 (ground arith);
          }
      perform-IsSound unlocks n at e =
          let p = first unlocks at in
          record {
            counted = ground (arith, h.counted, held unlocks at, p.0);
            owed = λ w. ground (arith, h.owed, owing unlocks at);
            proper = others n p.1 (ground arith);
          }
      perform-IsSound signals n at e =
          let w = d.woken m.at in
          record {
            counted = ground (arith, h.counted, held signals at, w.0);
            owed = λ r. ground (arith, w.1);
            proper = others n (first signals at) (ground arith);
          }
      perform-IsSound (does x) n at e =
          let p = first (does x) at in
          record {
            counted = ground (arith, h.counted, held (does x) at);
            owed = λ r.
                ground (
                  arith,
                  h.owed,
                  owing (does x) at,
                  left_owing (does x) at,
                  p.0,
                  d.told x m.shared,
                );
            proper = others n p.1 (ground arith);
          }

    -- The next call of a thread begins.
    call-IsSound :
        (i : ℕ) (j : J) (js : List J) (m : Room S E J At)
        → IsSound m
        → get_elem? m.workers i ≡ some (record { current = []; jobs = j ∷ js })
        → IsSound (put i (record { current = c.instrs j; jobs = js }) m)
    call-IsSound i j js m h at =
        let u : Worker E J = record { current = c.instrs j; jobs = js } in
        let (proper, free) = d.proper j in
        let held = sum-modify holds u m.workers i _ at in
        let owing = sum-modify owes u m.workers i _ at in
        record {
          counted = ground (arith, h.counted);
          owed = λ w. ground (arith, h.owed);
          proper = AllProper-modify d.tells u m.workers i h.proper proper;
        }

    worker_step-IsSound :
        (i : ℕ) (t : Worker E J) (m n : Room S E J At)
        → IsSound m
        → get_elem? m.workers i ≡ some t
        → worker_step c i t m ≡ some n
        → IsSound n
    unfolding worker_step
    worker_step-IsSound i t m n h at e = from t.current t.jobs at e
      where
        from :
            (cs : List (Instr E)) (js : List J)
            → get_elem? m.workers i ≡ some (record { current = cs; jobs = js })
            → worker_step c i (record { current = cs; jobs = js }) m ≡ some n
            → IsSound n
        from (a ∷ rest) js at e = perform-IsSound i rest js m h a n at e
        from [] [] at e = cc
        from [] (j ∷ js) at e =
            let e' : put i (record { current = c.instrs j; jobs = js }) m ≡ n = cc in
            subst IsSound e' (call-IsSound i j js m h at)

    module _ {s : S} {at : At} {plans : List (List J)} (free : d.at_holds at ≡ 0)
        (idle : c.is_waiting at ≡ false) where
      pub Reached-IsSound : {m : Room S E J At} → Reached c s at plans m → IsSound m
      Reached-IsSound began = record {
        counted = omega (arith, free, idle_workers-sum holds refl plans);
        owed = λ w. absurd (ground (arith, idle));
        proper = idle_workers-AllProper d.tells plans;
      }
      Reached-IsSound (stepped {m} {n} run e) =
          let h = Reached-IsSound run in
          let (same, held, quiet) = d.steps m n (sum holds m.workers) h.counted e in
          record {
            counted = rw same held;
            owed = λ w. absurd (ground (arith, quiet));
            proper = rw same h.proper;
          }
      Reached-IsSound (worked i t {m} {n} run got e) =
          worker_step-IsSound i t m n (Reached-IsSound run) got e
      Reached-IsSound (woke {m} run e) =
          let h = Reached-IsSound run in
          let w = d.woken m.at in
          record {
            counted = ground (arith, h.counted, w.0);
            owed = λ r. absurd (ground (arith, w.1));
            proper = h.proper;
          }

      -- Where no other thread is within a call, the lock is taken as often as the thread that waits
      -- holds it, and that thread waits for nothing that holds already.
      pub rests :
          {m : Room S E J At}
          → Reached c s at plans m
          → AtRest m.workers
          → (d.at_holds m.at ≡ (if m.locked then 1 else 0))
            × ((c.is_waiting m.at && d.ready m.shared) ≡ false)
      rests {m} run rest =
          let h = Reached-IsSound run in
          (
            ground (arith, h.counted, AtRest-sum holds refl m.workers rest),
            ground (arith, h.owed, AtRest-sum owes refl m.workers rest),
          )
