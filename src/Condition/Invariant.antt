-- ===== src/Condition/Invariant.antt =====
-- What is shared and where the thread that waits is: an invariant that every change keeps which the
-- calls of the other threads make.
use usbws_lws.Base.{
  get_elem?, modify, true, false, arith, ℕ, zero, suc, ◌≡◌, some, List, [], ◌∷◌, subst,
}
use usbws_lws.Condition.{
  Instr, locks, unlocks, signals, does, Worker, Room, Scheme, idle_workers, put, perform,
  worker_step, Reached, began, stepped, worked, woke,
}

module _ {S E J At : Type 0} (Holds : S → At → Type 0) where
  -- After a step of the thread that waits.
  abbrev pub Kept : Room S E J At → Room S E J At → Type 0
  Kept m n = Holds n.shared n.at × (m.workers ≡ n.workers)

  pub moved : (m n o : Room S E J At) → some n ≡ some o → Kept m n → Kept m o
  moved m n o e h = let e' : n ≡ o = cc in subst (Kept m) e' h

module _ {S E J At : Type 0} (c : Scheme S E J At) (Allowed : E → Type 0) where
  abbrev pub AllAllowed : List (Instr E) → Type 0
  AllAllowed [] = Unit
  AllAllowed (does e ∷ is) = Allowed e × AllAllowed is
  AllAllowed (_ ∷ is) = AllAllowed is

  abbrev pub PlanAllowed : List J → Type 0
  PlanAllowed [] = Unit
  PlanAllowed (j ∷ js) = AllAllowed (c.instrs j) × PlanAllowed js

  abbrev pub PlansAllowed : List (List J) → Type 0
  PlansAllowed [] = Unit
  PlansAllowed (js ∷ plans) = PlanAllowed js × PlansAllowed plans

  -- Every plan is one where every change is.
  module _ (every : (e : E) → Allowed e) where
    every-AllAllowed : (is : List (Instr E)) → AllAllowed is
    every-AllAllowed [] = tt
    every-AllAllowed (locks ∷ is) = every-AllAllowed is
    every-AllAllowed (unlocks ∷ is) = every-AllAllowed is
    every-AllAllowed (signals ∷ is) = every-AllAllowed is
    every-AllAllowed (does e ∷ is) = (every e, every-AllAllowed is)

    every-PlanAllowed : (js : List J) → PlanAllowed js
    every-PlanAllowed [] = tt
    every-PlanAllowed (j ∷ js) = (every-AllAllowed (c.instrs j), every-PlanAllowed js)

    pub every-PlansAllowed : (plans : List (List J)) → PlansAllowed plans
    every-PlansAllowed [] = tt
    every-PlansAllowed (js ∷ plans) = (every-PlanAllowed js, every-PlansAllowed plans)

  abbrev IsAllowed : Worker E J → Type 0
  IsAllowed t = AllAllowed t.current × PlanAllowed t.jobs

  abbrev WorkersAllowed : List (Worker E J) → Type 0
  WorkersAllowed [] = Unit
  WorkersAllowed (t ∷ ts) = IsAllowed t × WorkersAllowed ts

  idle_workers-WorkersAllowed :
      (plans : List (List J)) → PlansAllowed plans → WorkersAllowed (idle_workers plans)
  idle_workers-WorkersAllowed [] h = tt
  idle_workers-WorkersAllowed (js ∷ plans) (h, hs) = ((tt, h), idle_workers-WorkersAllowed plans hs)

  WorkersAllowed-modify :
      (u : Worker E J) (ts : List (Worker E J)) (i : ℕ)
      → WorkersAllowed ts
      → IsAllowed u
      → WorkersAllowed (modify ts i (λ _. u))
  WorkersAllowed-modify u [] i h g = tt
  WorkersAllowed-modify u (t ∷ ts) zero (h, hs) g = (g, hs)
  WorkersAllowed-modify u (t ∷ ts) (suc i) (h, hs) g = (h, WorkersAllowed-modify u ts i hs g)

  get_elem-IsAllowed :
      (ts : List (Worker E J)) (i : ℕ) (t : Worker E J)
      → get_elem? ts i ≡ some t
      → WorkersAllowed ts
      → IsAllowed t
  get_elem-IsAllowed [] i t at h = cc
  get_elem-IsAllowed (t' ∷ ts) zero t at (h, hs) = let e : t' ≡ t = cc in subst IsAllowed e h
  get_elem-IsAllowed (t' ∷ ts) (suc i) t at (h, hs) = get_elem-IsAllowed ts i t at hs

  -- What is shared, and where the thread that waits is.
  module _ (Holds : S → At → Type 0)
      (effects : (e : E) (s : S) (at : At) → Allowed e → Holds s at → Holds (c.effect e s) at)
      (wakes : (s : S) (at : At) → Holds s at → Holds s (c.wake at))
      (steps : (m n : Room S E J At)
        → c.step m ≡ some n
        → Holds m.shared m.at
        → Holds n.shared n.at × (m.workers ≡ n.workers)) where
    abbrev Keeps : Room S E J At → Type 0
    Keeps m = Holds m.shared m.at × WorkersAllowed m.workers

    perform-Keeps :
        (a : Instr E) (m n : Room S E J At)
        → AllAllowed (a ∷ [])
        → Keeps m
        → perform c a m ≡ some n
        → Keeps n
    unfolding perform
    perform-Keeps locks m n ok h e =
        let e' : record m { locked = true } ≡ n = ground arith in subst Keeps e' h
    perform-Keeps unlocks m n ok h e =
        let e' : record m { locked = false } ≡ n = cc in subst Keeps e' h
    perform-Keeps signals m n ok (h, hs) e =
        let e' : record m { at = c.wake m.at } ≡ n = cc in
        subst Keeps e' (wakes m.shared m.at h, hs)
    perform-Keeps (does x) m n ok (h, hs) e =
        let e' : record m { shared = c.effect x m.shared } ≡ n = cc in
        subst Keeps e' (effects x m.shared m.at ok.0 h, hs)

    put-Keeps :
        (i : ℕ) (u : Worker E J) (m : Room S E J At) → Keeps m → IsAllowed u → Keeps (put i u m)
    put-Keeps i u m (h, hs) g = (h, WorkersAllowed-modify u m.workers i hs g)

    first_allowed :
        (a : Instr E) (rest : List (Instr E))
        → AllAllowed (a ∷ rest)
        → AllAllowed (a ∷ []) × AllAllowed rest
    first_allowed locks rest h = (tt, h)
    first_allowed unlocks rest h = (tt, h)
    first_allowed signals rest h = (tt, h)
    first_allowed (does x) rest (h, hs) = ((h, tt), hs)

    worker_step-Keeps :
        (i : ℕ) (t : Worker E J) (m n : Room S E J At)
        → Keeps m
        → get_elem? m.workers i ≡ some t
        → worker_step c i t m ≡ some n
        → Keeps n
    unfolding worker_step
    worker_step-Keeps i t m n h at e =
        let g = get_elem-IsAllowed m.workers i t at h.1 in from t.current t.jobs g.0 g.1 e
      where
        from :
            (cs : List (Instr E)) (js : List J)
            → AllAllowed cs
            → PlanAllowed js
            → worker_step c i (record { current = cs; jobs = js }) m ≡ some n
            → Keeps n
        from (a ∷ rest) js g gs e =
            let (one, left) = first_allowed a rest g in
            perform-Keeps a (put i (record { current = rest; jobs = js }) m) n one
              (put-Keeps i (record { current = rest; jobs = js }) m h (left, gs)) e
        from [] [] g gs e = cc
        from [] (j ∷ js) g gs e =
            let u : Worker E J = record { current = c.instrs j; jobs = js } in
            let e' : put i u m ≡ n = cc in subst Keeps e' (put-Keeps i u m h gs)

    Reached-Keeps :
        {s : S} {at : At} {plans : List (List J)} {m : Room S E J At}
        → Holds s at
        → PlansAllowed plans
        → Reached c s at plans m
        → Keeps m
    Reached-Keeps {plans = plans} h hs began = (h, idle_workers-WorkersAllowed plans hs)
    Reached-Keeps h hs (stepped {m} {n} run e) =
        let g = Reached-Keeps h hs run in
        let (k, same) = steps m n e g.0 in (k, subst WorkersAllowed same g.1)
    Reached-Keeps h hs (worked i t {m} {n} run got e) =
        worker_step-Keeps i t m n (Reached-Keeps h hs run) got e
    Reached-Keeps h hs (woke {m} run e) =
        let g = Reached-Keeps h hs run in (wakes m.shared m.at g.0, g.1)

    pub Reached-Holds :
        {s : S} {at : At} {plans : List (List J)} {m : Room S E J At}
        → Holds s at
        → PlansAllowed plans
        → Reached c s at plans m
        → Holds m.shared m.at
    Reached-Holds h hs run = (Reached-Keeps h hs run).0
