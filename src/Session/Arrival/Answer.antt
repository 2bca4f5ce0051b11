-- ===== src/Session/Arrival/Answer.antt =====
-- What `usbws_recv` answers, whatever the other threads do.
use usbws_lws.Base.{
  ℕ, ◌+◌, ◌*◌, ◌≤◌, ◌<◌, ◌≡◌, ◌⊎◌, inl, inr, refl, Bool, true, false, ◌&&◌, some, List, [], arith,
  ℤ, pos, negsuc, length, subst, Bool-cases,
}
use usbws_lws.Condition.{Reached}
use usbws_lws.Condition.Invariant.{Kept, moved, every-PlansAllowed, Reached-Holds}
use usbws_lws.Session.Recv.{is_empty}
use usbws_lws.Session.Recv.Account.{recv_pass-Accounts}
use usbws_lws.Session.Arrival.{
  ReceiverAt, looping, locking, testing, waiting, woken, checking, failing, leaving, answered,
  Change, flags, clears, adds, Job, Inbox, Arrival, change, awake, pass, is_enough, receiver_step,
  arrival,
}

module _ (len : ℕ) (all : Bool) where
  -- The buffer holds as many bytes as were counted, less than twice as many as were asked for.
  abbrev pub IsCounted : Inbox → Type 0
  IsCounted b = (length b.dbuf ≡ b.total) × ((len ≡ 0) ⊎ (b.total + 1 ≤ 2 * len))

  -- The answer is -1, of a discontinued session; or the number of bytes in the buffer, which are
  -- enough unless the session is discontinued.
  abbrev pub IsAnswer : Inbox → ℤ → Type 0
  IsAnswer b r =
      ((r ≡ negsuc 0) × (b.cont ≡ false))
      ⊎ ((r ≡ pos b.total) × IsCounted b × ((b.cont ≡ false) ⊎ (is_enough len all b ≡ true)))

  abbrev Wanting : Inbox → Type 0
  Wanting b = (length b.dbuf ≡ b.total) × ((len ≡ 0) ⊎ (b.total < len))

  abbrev Holds : Inbox → ReceiverAt → Type 0
  Holds b failing = b.cont ≡ false
  Holds b leaving = IsCounted b
  Holds b (answered r) = IsAnswer b r
  Holds b _ = Wanting b

  flagged : (b : Inbox) (at : ReceiverAt) → Holds b at → Holds (record b { cont = false }) at
  flagged b looping h = h
  flagged b locking h = h
  flagged b testing h = h
  flagged b waiting h = h
  flagged b woken h = h
  flagged b checking h = h
  flagged b failing h = refl
  flagged b leaving h = h
  flagged b (answered r) (inl h) = inl (h.0, refl)
  flagged b (answered r) (inr h) = inr (h.0, h.1, inl refl)

  change-Holds :
      (e : Change) (b : Inbox) (at : ReceiverAt) → Unit {0} → Holds b at → Holds (change e b) at
  unfolding change
  change-Holds flags b at u h = flagged b at h
  change-Holds clears b at u h = h
  change-Holds (adds frame) b at u h = h

  awake-Holds : (b : Inbox) (at : ReceiverAt) → Holds b at → Holds b (awake at)
  awake-Holds b waiting h = h
  awake-Holds b looping h = h
  awake-Holds b locking h = h
  awake-Holds b testing h = h
  awake-Holds b woken h = h
  awake-Holds b checking h = h
  awake-Holds b failing h = h
  awake-Holds b leaving h = h
  awake-Holds b (answered r) h = h

  receiver_step-Holds :
      (m n : Arrival) → receiver_step len all m ≡ some n → Holds m.shared m.at → Kept Holds m n
  unfolding receiver_step
  receiver_step-Holds m n e h = from m.at refl h
    where
      b : Inbox
      b = m.shared

      from : (at : ReceiverAt) → m.at ≡ at → Holds m.shared at → Kept Holds m n
      from looping w h = elim (Bool-cases m.shared.cont) [
        | inl on ↦ moved Holds m (record m { at = locking }) n (ground arith) (h, refl)
        | inr off ↦
            moved Holds m (record m { at = answered (pos m.shared.total) }) n (ground arith)
              (inr (refl, (h.0, ground (arith, h.1)), inl off), refl)
      ]
      from locking w h =
          moved Holds m (record m { locked = true; at = testing }) n (ground arith) (h, refl)
      from testing w h = elim (Bool-cases (m.shared.cont && is_empty m.shared.queue)) [
        | inl waits ↦
            moved Holds m (record m { locked = false; at = waiting }) n (ground arith) (h, refl)
        | inr goes_on ↦ moved Holds m (record m { at = checking }) n (ground arith) (h, refl)
      ]
      from waiting w h = absurd (ground arith)
      from woken w h =
          moved Holds m (record m { locked = true; at = testing }) n (ground arith) (h, refl)
      from checking w h = elim (Bool-cases m.shared.cont) [
        | inl on ↦
            let a =
              recv_pass-Accounts len m.shared.queue m.shared.offset m.shared.total m.shared.dbuf in
            moved Holds m (record m { shared = pass len all m.shared; at = leaving }) n
              (ground arith) ((a.copied h.0, ground (arith, h.1, a.bounded)), refl)
        | inr off ↦ moved Holds m (record m { at = failing }) n (ground arith) (off, refl)
      ]
      from failing w h =
          moved Holds m (record m { locked = false; at = answered (negsuc 0) }) n (ground arith)
            (inl (refl, h), refl)
      from leaving w h = elim (Bool-cases (is_enough len all m.shared)) [
        | inl done ↦
            moved Holds m (record m { locked = false; at = answered (pos m.shared.total) }) n
              (ground arith) (inr (refl, h, inr done), refl)
        | inr more ↦
            moved Holds m (record m { locked = false; at = looping }) n (ground arith)
              ((h.0, ground (arith, more)), refl)
      ]
      from (answered r) w h = absurd (ground arith)

  -- Whatever the other threads do and in whatever order: what `usbws_recv` answers is -1 and the
  -- session discontinued; or it is the number of bytes in the buffer, less than twice as many as were
  -- asked for where that is not 0, and as many as were asked for, or more than none where not all
  -- are asked for, unless the session is discontinued.
  pub receiver_answers :
      (b : Inbox) (plans : List (List Job)) (m : Arrival) (r : ℤ)
      → b.total ≡ 0
      → b.dbuf ≡ []
      → Reached (arrival len all) b looping plans m
      → m.at ≡ answered r
      → IsAnswer m.shared r
  receiver_answers b plans m r none_yet empty run at =
      let start : Wanting b = (rw empty (rw none_yet refl), ground (arith, none_yet)) in
      subst (Holds m.shared) at (
        Reached-Holds (arrival len all) (λ _. Unit {0}) Holds change-Holds awake-Holds
          receiver_step-Holds start
          (every-PlansAllowed (arrival len all) (λ _. Unit {0}) (λ _. tt) plans) run)
