-- ===== src/Session/Monitor/Early.antt =====
-- `usbws_send` does not return before the message's end, unless the session is discontinued.
use usbws_lws.Base.{
  ◌≡◌, ◌⊎◌, inl, inr, refl, true, false, ◌&&◌, some, List, arith, ℤ, negsuc, subst, Bool-cases,
}
use usbws_lws.Condition.{Reached}
use usbws_lws.Condition.Invariant.{Kept, moved, every-PlansAllowed, Reached-Holds}
use usbws_lws.Session.Monitor.{
  SenderAt, entering, testing, waiting, woken, leaving, reading, answered, Change, flags, empties,
  advances, Job, Outbox, Monitor, change, awake, result, sender_step, monitor,
}

-- The answer is -1, of a discontinued session; or the buffer has been cleared.
abbrev pub IsAnswer : Outbox → ℤ → Type 0
IsAnswer b r = ((r ≡ negsuc 0) × (b.cont ≡ false)) ⊎ (b.pending ≡ false)

abbrev Over : Outbox → Type 0
Over b = (b.cont ≡ false) ⊎ (b.pending ≡ false)

abbrev Holds : Outbox → SenderAt → Type 0
Holds b leaving = Over b
Holds b reading = Over b
Holds b (answered r) = IsAnswer b r
Holds b _ = Unit

change-Over : (e : Change) (b : Outbox) → Over b → Over (change e b)
unfolding change
change-Over flags b h = inl refl
change-Over empties b h = inr refl
change-Over (advances sent) b h = h

change-IsAnswer : (e : Change) (b : Outbox) (r : ℤ) → IsAnswer b r → IsAnswer (change e b) r
unfolding change
change-IsAnswer flags b r (inl h) = inl (h.0, refl)
change-IsAnswer flags b r (inr h) = inr h
change-IsAnswer empties b r h = inr refl
change-IsAnswer (advances sent) b r h = h

change-Holds :
    (e : Change) (b : Outbox) (at : SenderAt) → Unit {0} → Holds b at → Holds (change e b) at
change-Holds e b entering u h = h
change-Holds e b testing u h = h
change-Holds e b waiting u h = h
change-Holds e b woken u h = h
change-Holds e b leaving u h = change-Over e b h
change-Holds e b reading u h = change-Over e b h
change-Holds e b (answered r) u h = change-IsAnswer e b r h

awake-Holds : (b : Outbox) (at : SenderAt) → Holds b at → Holds b (awake at)
awake-Holds b waiting h = h
awake-Holds b entering h = h
awake-Holds b testing h = h
awake-Holds b woken h = h
awake-Holds b leaving h = h
awake-Holds b reading h = h
awake-Holds b (answered r) h = h

result-IsAnswer : (b : Outbox) → Over b → IsAnswer b (result b)
result-IsAnswer b h = elim (Bool-cases b.cont) [
  | inl on ↦ inr (ground (arith, h))
  | inr off ↦ inl (ground arith, off)
]

sender_step-Holds : (m n : Monitor) → sender_step m ≡ some n → Holds m.shared m.at → Kept Holds m n
unfolding sender_step
sender_step-Holds m n e h = from m.at refl h
  where
    from : (at : SenderAt) → m.at ≡ at → Holds m.shared at → Kept Holds m n
    from entering w h =
        moved Holds m (record m { locked = true; at = testing }) n (ground arith) (tt, refl)
    from testing w h = elim (Bool-cases (m.shared.cont && m.shared.pending)) [
      | inl waits ↦
          moved Holds m (record m { locked = false; at = waiting }) n (ground arith) (tt, refl)
      | inr over ↦
          moved Holds m (record m { at = leaving }) n (ground arith) (ground (arith, over), refl)
    ]
    from waiting w h = absurd (ground arith)
    from woken w h =
        moved Holds m (record m { locked = true; at = testing }) n (ground arith) (tt, refl)
    from leaving w h =
        moved Holds m (record m { locked = false; at = reading }) n (ground arith) (h, refl)
    from reading w h =
        moved Holds m (record m { at = answered (result m.shared) }) n (ground arith)
          (result-IsAnswer m.shared h, refl)
    from (answered r) w h = absurd (ground arith)

-- Whatever the other threads do and in whatever order: `usbws_send` returns -1 of a discontinued
-- session, or the message has been sent to its end.
pub sender_answers :
    (b : Outbox) (plans : List (List Job)) (m : Monitor) (r : ℤ)
    → Reached monitor b entering plans m
    → m.at ≡ answered r
    → IsAnswer m.shared r
sender_answers b plans m r run at = subst (Holds m.shared) at (
    Reached-Holds monitor (λ _. Unit {0}) Holds change-Holds awake-Holds sender_step-Holds tt
      (every-PlansAllowed monitor (λ _. Unit {0}) (λ _. tt) plans) run)
