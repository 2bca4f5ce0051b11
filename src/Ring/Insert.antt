-- ===== src/Ring/Insert.antt =====
-- `INIT_LIST_HEAD` and `list_add_tail` on rings.
use usbws_lws.Base.{◌≡◌, ◌≢◌, refl, false, List, [], ◌∷◌, ◌++◌, arith}
use usbws_lws.Ring.{Ptr, Links, init_list_head, list_add_tail}
use usbws_lws.Ring.Chain.{has, Distinct, IsRing, prev_mem, has-append, Chain-retarget, Chain-append}

-- `INIT_LIST_HEAD` makes an empty list, whatever the memory held.
pub init_list_head-IsRing : (m : Links) (head : Ptr) → IsRing (init_list_head head m) head []
unfolding init_list_head
init_list_head-IsRing m head = record {
  chain = (ground arith, ground arith);
  apart = refl;
  distinct = tt;
}

Distinct-snoc : (xs : List Ptr) (x : Ptr) → Distinct xs → has x xs ≡ false → Distinct (xs ++ x ∷ [])
Distinct-snoc [] x d out = (refl, tt)
Distinct-snoc (z ∷ zs) x d out =
    (ground (arith, has-append z zs (x ∷ [])), Distinct-snoc zs x d.1 (ground arith))

-- `list_add_tail` of an entry that is not in the list puts it behind all others.
pub list_add_tail-IsRing :
    (m : Links) (head neo : Ptr) (xs : List Ptr)
    → IsRing m head xs
    → neo ≢ head
    → has neo xs ≡ false
    → IsRing (list_add_tail neo head m) head (xs ++ neo ∷ [])
unfolding list_add_tail
list_add_tail-IsRing m head neo xs r ne out = record {
  chain =
      Chain-append _ head xs neo [] head
        (Chain-retarget m _ head xs head neo r.chain r.apart r.distinct (ground arith)
          (ground (arith, prev_mem m head xs head r.chain)) (λ c i far. ground arith)
          (λ c i. ground (arith, r.apart)))
        (ground (arith, prev_mem m head xs head r.chain), ground arith);
  apart = ground (arith, has-append head xs (neo ∷ []));
  distinct = Distinct-snoc xs neo r.distinct out;
}
