-- ===== src/Ring/Delete.antt =====
-- `list_del` and `list_empty` on rings.
use usbws_lws.Base.{
  ◌≡◌, ◌≢◌, ◌↔◌, refl, true, false, List, [], ◌∷◌, ◌++◌, arith, ◌||◌, ◌∙◌, append-nil, sym,
}
use usbws_lws.Ring.{Ptr, Links, list_del, list_empty}
use usbws_lws.Ring.Chain.{
  has, Chain, IsRing, Parts, prev_mem, has-append, Chain-frame, Chain-retarget, Chain-append,
  Chain-split, Distinct-Parts,
}

-- Cutting out `x`, whose two sides are the chains `xs` and `ys`.
Chain-del :
    (m : Links) (p : Ptr) (xs : List Ptr) (x : Ptr) (ys : List Ptr)
    → Chain m p xs x
    → Chain m x ys p
    → p ≢ x
    → has p xs ≡ false
    → has p ys ≡ false
    → Parts xs x ys
    → Chain (list_del x m) p (xs ++ ys) p
unfolding list_del
Chain-del m p xs x [] c d ne out out' parts = rw append-nil (
    Chain-retarget m _ p xs x p c out parts.front (ground arith) (ground arith)
      (λ a i far. ground arith) (λ a i. ground arith))
Chain-del m p xs x (y ∷ ys) c d ne out out' parts =
    Chain-append _ p xs y ys p
      (Chain-retarget m _ p xs x y c out parts.front (ground arith) (ground arith)
        (λ a i far. ground arith) (λ a i. ground (arith, parts.crossed a)))
      (Chain-frame m _ y ys p (λ a i. ground (arith, parts.crossed a, prev_mem m p xs x c))
        (λ a i. ground arith) (ground arith) d.2)

-- `list_del` of an entry anywhere in the list takes out that entry and no other.
pub list_del-IsRing :
    (m : Links) (head : Ptr) (xs : List Ptr) (x : Ptr) (ys : List Ptr)
    → IsRing m head (xs ++ x ∷ ys)
    → IsRing (list_del x m) head (xs ++ ys)
list_del-IsRing m head xs x ys r = record {
  chain =
      Chain-del m head xs x ys sides.0 sides.1 (ground (arith, away)) (ground (arith, away))
        (ground (arith, away)) parts;
  apart = ground (arith, away, has-append head xs ys);
  distinct = parts.whole;
}
  where
    sides : Chain m head xs x × Chain m x ys head
    sides = Chain-split m head xs x ys head r.chain

    parts : Parts xs x ys
    parts = Distinct-Parts xs x ys r.distinct

    away : (has head xs || has head (x ∷ ys)) ≡ false
    away = sym (has-append head xs (x ∷ ys)) ∙ r.apart

-- `list_empty` holds of a list if and only if it has no entry.
pub list_empty_iff :
    (m : Links) (head : Ptr) (xs : List Ptr)
    → IsRing m head xs
    → (list_empty head m ≡ true) ↔ (xs ≡ [])
unfolding list_empty
list_empty_iff m head [] r = (λ _. refl, λ _. ground (arith, r.chain))
list_empty_iff m head (x ∷ xs) r = (λ e. absurd (ground (arith, r.chain, r.apart)), λ e. cc)

-- After the first entry is deleted, the one that was its successor is first.
pub list_del-first :
    (m : Links) (head x : Ptr) (xs : List Ptr)
    → IsRing m head (x ∷ xs)
    → (list_del x m head).next ≡ (m x).next
unfolding list_del
list_del-first m head x xs r = ground (arith, r.chain)
