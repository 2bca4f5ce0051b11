-- ===== src/Commands/Loop.antt =====
-- The loop that the commands share: `getopt_long` until -1, with a `switch` that may return, and
-- tests behind the loop.
use usbws_lws.Base.{◌&&◌, ◌≡◌, refl, Bool, true, List, [], ◌∷◌, arith, ℤ}

-- One turn sets variables, or sets some and returns from the function.
pub data Step (S : Type 0) : Type 0 where
  going : S → Step S
  done : ℤ → S → Step S

module _ {Opt S : Type 0} (step : Opt → S → Step S) (required : S → ℤ) where
  unfoldable pub options_loop : List Opt → S → ℤ × S
  options_loop [] s = (required s, s)
  options_loop (opt ∷ opts) s = elim (step opt s) [
    | going t ↦ options_loop opts t
    | done ret t ↦ (ret, t)
  ]

-- Without an option that returns, the loop applies the options from left to right.
abbrev pub apply_all : {Opt S : Type 0} → (Opt → S → S) → List Opt → S → S
apply_all apply [] s = s
apply_all apply (opt ∷ opts) s = apply_all apply opts (apply opt s)

abbrev pub all : {Opt : Type 0} → (Opt → Bool) → List Opt → Bool
all plain [] = true
all plain (opt ∷ opts) = plain opt && all plain opts

pub options_loop_plain :
    {Opt S : Type 0} (step : Opt → S → Step S) (required : S → ℤ) (plain : Opt → Bool)
    (apply : Opt → S → S)
    → ((opt : Opt) (s : S) → plain opt ≡ true → step opt s ≡ going (apply opt s))
    → (opts : List Opt) (s : S) → all plain opts ≡ true
    → options_loop step required opts s
      ≡ (required (apply_all apply opts s), apply_all apply opts s)
unfolding options_loop
options_loop_plain step required plain apply steps [] s e = refl
options_loop_plain step required plain apply steps (opt ∷ opts) s e =
    rw (steps opt s (ground arith), options_loop)
      (options_loop_plain step required plain apply steps opts (apply opt s) (ground arith))

abbrev pub state_of : {S : Type 0} → Step S → S
state_of (going t) = t
state_of (done ret t) = t

-- What every turn keeps, the loop keeps.
pub options_loop_keeps :
    {Opt S : Type 0} (step : Opt → S → Step S) (required : S → ℤ) (P : S → Type 0)
    → ((opt : Opt) (s : S) → P s → P (state_of (step opt s)))
    → (opts : List Opt) (s : S) → P s
    → P (options_loop step required opts s).1
unfolding options_loop
options_loop_keeps step required P keeps [] s h = h
options_loop_keeps {S} step required P keeps (opt ∷ opts) s h =
    next (step opt s) (keeps opt s h) (options_loop_keeps step required P keeps opts)
  where
    next :
        (r : Step S)
        → P (state_of r)
        → ((t : S) → P t → P (options_loop step required opts t).1)
        → P
            (elim r as (λ _. ℤ × S) [
              | going t ↦ options_loop step required opts t
              | done ret t ↦ (ret, t)
            ]).1
    next (going t) k later = later t k
    next (done ret t) k later = k

-- What holds behind the tests, and at each return, holds of the loop's result.
pub options_loop_returns :
    {Opt S : Type 0} (step : Opt → S → Step S) (required : S → ℤ) (Q : ℤ → S → Type 0)
    → ((s : S) → Q (required s) s)
    → ((opt : Opt) (s t : S) (ret : ℤ) → step opt s ≡ done ret t → Q ret t)
    → (opts : List Opt) (s : S) → let (ret, t) = options_loop step required opts s in Q ret t
unfolding options_loop
options_loop_returns step required Q last returns [] s = last s
options_loop_returns {S} step required Q last returns (opt ∷ opts) s =
    next (step opt s) (returns opt s) (options_loop_returns step required Q last returns opts)
  where
    next :
        (r : Step S)
        → ((t : S) (ret : ℤ) → r ≡ done ret t → Q ret t)
        → ((t : S) → Q (options_loop step required opts t).0 (options_loop step required opts t).1)
        → let (ret, t) = elim r as (λ _. ℤ × S) [
          | going t ↦ options_loop step required opts t
          | done ret t ↦ (ret, t)
        ] in
          Q ret t
    next (going t) k later = later t
    next (done ret t) k later = k t ret refl
