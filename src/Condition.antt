-- ===== src/Condition.antt =====
-- A lock and its condition, as `usbws_recv` and `usbws_client_open` use them: one thread waits for
-- the condition, and any number of others do their calls step by step.
pub mod Count
pub mod Sound
pub mod Invariant
use usbws_lws.Base.{
  get_elem?, modify, ℕ, ◌≡◌, Bool, true, false, Option, none, some, List, [], ◌∷◌, if◌then◌else◌,
}

-- What a thread does, between two of which all threads may run; `does` changes what is shared.
pub data Instr (E : Type 0) : Type 0 where
  locks unlocks signals : Instr E
  does : E → Instr E

-- What is left to do of the call under way, and the calls to come.
pub record Worker (E J : Type 0) : Type 0 where
  pub current : List (Instr E)
  pub jobs : List J

-- What is shared, with the variables of the thread that waits; the lock; where that thread is; and
-- the others.
pub record Room (S E J At : Type 0) : Type 0 where
  pub shared : S
  pub locked : Bool
  pub at : At
  pub workers : List (Worker E J)

-- The calls as their steps, what a step does, what the signal does to the thread that waits, and
-- that thread's own steps, `none` where it has to wait or has returned.
pub record Scheme (S E J At : Type 0) : Type 0 where
  pub instrs : J → List (Instr E)
  pub effect : E → S → S
  pub wake : At → At
  pub is_waiting : At → Bool
  pub step : Room S E J At → Option (Room S E J At)

abbrev pub idle_workers : {E J : Type 0} → List (List J) → List (Worker E J)
idle_workers [] = []
idle_workers (js ∷ plans) = record { current = []; jobs = js } ∷ idle_workers plans

module _ {S E J At : Type 0} where
  abbrev pub put : ℕ → Worker E J → Room S E J At → Room S E J At
  put i t m = record m { workers = modify m.workers i (λ _. t) }

  module _ (c : Scheme S E J At) where
    -- One step of a thread; `none` where it has to wait for the lock.
    unfoldable pub perform : Instr E → Room S E J At → Option (Room S E J At)
    perform locks m = if m.locked then none else some (record m { locked = true })
    perform unlocks m = some (record m { locked = false })
    perform signals m = some (record m { at = c.wake m.at })
    perform (does e) m = some (record m { shared = c.effect e m.shared })

    -- The next step of the thread at a position, which is `t`.
    unfoldable pub worker_step : ℕ → Worker E J → Room S E J At → Option (Room S E J At)
    unfolding perform
    worker_step i t m = elim t.current [
      | a ∷ rest ↦ perform a (put i (record t { current = rest }) m)
      | [] ↦ elim t.jobs [
        | [] ↦ none
        | j ∷ js ↦ some (put i (record { current = c.instrs j; jobs = js }) m)
      ]
    ]

    -- The steps of a thread one after the other.
    abbrev pub perform_all : List (Instr E) → Room S E J At → Option (Room S E J At)
    perform_all [] m = some m
    perform_all (a ∷ rest) m = elim (perform a m) [ none ↦ none | some n ↦ perform_all rest n ]

    -- The states that the threads come to, from one with the lock free and no call under way, in any
    -- order of their steps, with wake-ups without a signal; `plans` are the calls that the other
    -- threads make.
    pub data Reached (s : S) (at : At) (plans : List (List J)) : Room S E J At → Type 0 where
      began :
          Reached s at plans
            (record { shared = s; locked = false; at = at; workers = idle_workers plans })
      stepped :
          {m n : Room S E J At} → Reached s at plans m → c.step m ≡ some n → Reached s at plans n
      worked :
          (i : ℕ) (t : Worker E J) {m n : Room S E J At}
          → Reached s at plans m
          → get_elem? m.workers i ≡ some t
          → worker_step i t m ≡ some n
          → Reached s at plans n
      woke :
          {m : Room S E J At}
          → Reached s at plans m
          → c.is_waiting m.at ≡ true
          → Reached s at plans (record m { at = c.wake m.at })

    -- Steps of the thread that waits, alone.
    pub data Runs : Room S E J At → Room S E J At → Type 0 where
      stays : (m : Room S E J At) → Runs m m
      goes : (m n o : Room S E J At) → c.step m ≡ some n → Runs n o → Runs m o

    -- By these a state with the property is come to.
    abbrev pub Comes : (Room S E J At → Type 0) → Room S E J At → Type 0
    Comes P m = (n : Room S E J At) × Runs m n × P n

    pub step-Comes :
        (P : Room S E J At → Type 0) (m n : Room S E J At)
        → c.step m ≡ some n
        → Comes P n
        → Comes P m
    step-Comes P m n e (o, run, h) = (o, goes m n o e run, h)

    pub Runs-Reached :
        {s : S} {at : At} {plans : List (List J)} {m n : Room S E J At}
        → Reached s at plans m
        → Runs m n
        → Reached s at plans n
    Runs-Reached run (stays m) = run
    Runs-Reached run (goes m n o e more) = Runs-Reached (stepped run e) more
