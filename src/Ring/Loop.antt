-- ===== src/Ring/Loop.antt =====
-- One turn of `list_for_each_safe`.
use usbws_lws.Base.{ℕ, suc, ◌≡◌, true, false, Option, some, arith, ◌==◌}
use usbws_lws.Ring.{Ptr, Turn, proceed, leave, each_safe_from, list_for_each_safe}

module _ {S : Type 0} (next : S → Ptr → Option Ptr) (body : Ptr → S → Option (Turn S))
    (head : Ptr) where
  pub loop_start :
      (fuel : ℕ) (pos n : Ptr) (s : S)
      → next s head ≡ some pos
      → next s pos ≡ some n
      → list_for_each_safe next body head fuel s ≡ each_safe_from next body head fuel pos n s
  unfolding list_for_each_safe
  loop_start fuel pos n s e e' = ground arith

  pub turn_end :
      (fuel : ℕ) (pos n : Ptr) (s : S)
      → (pos == head) ≡ true
      → each_safe_from next body head (suc fuel) pos n s ≡ some s
  unfolding each_safe_from
  turn_end fuel pos n s e = rw (e, each_safe_from)

  pub turn_proceed :
      (fuel : ℕ) (pos n n' : Ptr) (s t : S)
      → (pos == head) ≡ false
      → body pos s ≡ some (proceed t)
      → next t n ≡ some n'
      → each_safe_from next body head (suc fuel) pos n s ≡ each_safe_from next body head fuel n n' t
  unfolding each_safe_from
  turn_proceed fuel pos n n' s t e b c = ground arith

  pub turn_leave :
      (fuel : ℕ) (pos n : Ptr) (s t : S)
      → (pos == head) ≡ false
      → body pos s ≡ some (leave t)
      → each_safe_from next body head (suc fuel) pos n s ≡ some t
  unfolding each_safe_from
  turn_leave fuel pos n s t e b = ground arith
