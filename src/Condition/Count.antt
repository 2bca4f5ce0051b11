-- ===== src/Condition/Count.antt =====
-- The threads that hold the lock, and those that are about to signal.
use usbws_lws.Base.{
  get_elem?, modify, ℕ, zero, suc, ◌+◌, ◌≤◌, ◌≡◌, ◌⊎◌, Bool, false, some, List, [], ◌∷◌, arith,
  subst, refl,
}
use usbws_lws.Condition.{Instr, locks, unlocks, signals, does, Worker, idle_workers}

module _ {E : Type 0} where
  -- Whether the lock is held before what is left to do.
  abbrev pub holds : List (Instr E) → ℕ
  holds [] = 0
  holds (locks ∷ is) = 0
  holds (unlocks ∷ is) = 1
  holds (_ ∷ is) = holds is

  abbrev pub owes : List (Instr E) → ℕ
  owes [] = 0
  owes (signals ∷ is) = 1
  owes (_ ∷ is) = owes is

  -- The lock is taken and released in turn, and a signal comes after what has to be told.
  abbrev pub IsProper : (E → Bool) → List (Instr E) → Type 0
  IsProper tells [] = Unit
  IsProper tells (locks ∷ is) = (holds is ≡ 1) × IsProper tells is
  IsProper tells (unlocks ∷ is) = (holds is ≡ 0) × IsProper tells is
  IsProper tells (signals ∷ is) = IsProper tells is
  IsProper tells (does e ∷ is) = ((tells e ≡ false) ⊎ (owes is ≡ 1)) × IsProper tells is

module _ {E J : Type 0} where
  abbrev pub sum : (List (Instr E) → ℕ) → List (Worker E J) → ℕ
  sum f [] = 0
  sum f (t ∷ ts) = f t.current + sum f ts

  abbrev pub AllProper : (E → Bool) → List (Worker E J) → Type 0
  AllProper tells [] = Unit
  AllProper tells (t ∷ ts) = IsProper tells t.current × AllProper tells ts

  -- No thread is within a call.
  abbrev pub AtRest : List (Worker E J) → Type 0
  AtRest [] = Unit
  AtRest (t ∷ ts) = (t.current ≡ []) × AtRest ts

  pub AtRest-sum :
      (f : List (Instr E) → ℕ) → f [] ≡ 0 → (ts : List (Worker E J)) → AtRest ts → sum f ts ≡ 0
  AtRest-sum f e [] h = refl
  AtRest-sum f e (t ∷ ts) (h, hs) = rw h (omega (arith, AtRest-sum f e ts hs))

  pub idle_workers-sum :
      (f : List (Instr E) → ℕ) → f [] ≡ 0 → (plans : List (List J)) → sum f (idle_workers plans) ≡ 0
  idle_workers-sum f e [] = refl
  idle_workers-sum f e (js ∷ plans) = omega (arith, idle_workers-sum f e plans)

  pub sum-modify :
      (f : List (Instr E) → ℕ) (u : Worker E J) (ts : List (Worker E J)) (i : ℕ) (t : Worker E J)
      → get_elem? ts i ≡ some t
      → sum f (modify ts i (λ _. u)) + f t.current ≡ sum f ts + f u.current
  sum-modify f u [] i t at = cc
  sum-modify f u (t' ∷ ts) zero t at = let e : t' ≡ t = cc in rw e (omega arith)
  sum-modify f u (t' ∷ ts) (suc i) t at = omega (arith, sum-modify f u ts i t at)

  pub sum-modify_least :
      (f : List (Instr E) → ℕ) (u : Worker E J) (ts : List (Worker E J)) (i : ℕ) (t : Worker E J)
      → get_elem? ts i ≡ some t
      → f u.current ≤ sum f (modify ts i (λ _. u))
  sum-modify_least f u [] i t at = cc
  sum-modify_least f u (t' ∷ ts) zero t at = omega arith
  sum-modify_least f u (t' ∷ ts) (suc i) t at = omega (arith, sum-modify_least f u ts i t at)

  module _ (tells : E → Bool) where
    pub idle_workers-AllProper : (plans : List (List J)) → AllProper tells (idle_workers plans)
    idle_workers-AllProper [] = tt
    idle_workers-AllProper (js ∷ plans) = (tt, idle_workers-AllProper plans)

    pub AllProper-modify :
        (u : Worker E J) (ts : List (Worker E J)) (i : ℕ)
        → AllProper tells ts
        → IsProper tells u.current
        → AllProper tells (modify ts i (λ _. u))
    AllProper-modify u [] i h g = tt
    AllProper-modify u (t ∷ ts) zero (h, hs) g = (g, hs)
    AllProper-modify u (t ∷ ts) (suc i) (h, hs) g = (h, AllProper-modify u ts i hs g)

    pub get_elem-IsProper :
        (ts : List (Worker E J)) (i : ℕ) (t : Worker E J)
        → get_elem? ts i ≡ some t
        → AllProper tells ts
        → IsProper tells t.current
    get_elem-IsProper [] i t at h = cc
    get_elem-IsProper (t' ∷ ts) zero t at (h, hs) =
        let e : t' ≡ t = cc in subst (λ (u : Worker E J). IsProper tells u.current) e h
    get_elem-IsProper (t' ∷ ts) (suc i) t at (h, hs) = get_elem-IsProper ts i t at hs
