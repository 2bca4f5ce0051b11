-- ===== src/Ring.antt =====
-- The circular doubly linked list of src/usbws_util.h, over memory that maps an address to the two
-- pointers of the `struct list_head` there. Addresses are numbers.
pub mod Chain
pub mod Insert
pub mod Delete
pub mod Loop
use usbws_lws.Base.{ℕ, zero, suc, ◌≡◌, Bool, true, false, Option, none, some, ◌==◌, if◌then◌else◌}

abbrev pub Ptr : Type 0
Ptr = ℕ

pub record ListHead : Type 0 where
  pub next : Ptr
  pub prev : Ptr

abbrev pub Links : Type 0
Links = Ptr → ListHead

-- `p->next = q` and `p->prev = q`.
abbrev pub set_next : Ptr → Ptr → Links → Links
set_next p q m a = if a == p then record (m a) { next = q } else m a

abbrev pub set_prev : Ptr → Ptr → Links → Links
set_prev p q m a = if a == p then record (m a) { prev = q } else m a

unfoldable pub init_list_head : Ptr → Links → Links
init_list_head list m = set_prev list list (set_next list list m)

-- `__list_add`: the four writes in their order.
unfoldable pub list_add_raw : (neo prev next : Ptr) → Links → Links
list_add_raw neo prev next m =
    set_next prev neo (set_prev neo prev (set_next neo next (set_prev next neo m)))

unfoldable pub list_add_tail : (neo head : Ptr) → Links → Links
unfolding list_add_raw
list_add_tail neo head m = list_add_raw neo (m head).prev head m

-- `__list_del`.
unfoldable pub list_del_raw : (prev next : Ptr) → Links → Links
list_del_raw prev next m = set_next prev next (set_prev next prev m)

unfoldable pub list_del : Ptr → Links → Links
unfolding list_del_raw
list_del entry m = list_del_raw (m entry).prev (m entry).next m

unfoldable pub list_empty : Ptr → Links → Bool
list_empty head m = (m head).next == head

-- One turn of a loop body says whether it leaves the loop, and `none` that it made an access that
-- C does not define.
pub data Turn (S : Type 0) : Type 0 where
  proceed : S → Turn S
  leave : S → Turn S

-- The loop of `list_for_each_safe` from `pos`, whose successor `n` was read before the body ran.
-- `next` reads `p->next`, and is `none` where `p` is not allocated. Fuel counts the turns; `none` at
-- fuel 0.
module _ {S : Type 0} (next : S → Ptr → Option Ptr) (body : Ptr → S → Option (Turn S))
    (head : Ptr) where
  unfoldable pub each_safe_from : ℕ → (pos n : Ptr) → S → Option S
  each_safe_from zero pos n s = none
  each_safe_from (suc fuel) pos n s = elim (pos == head) [
    | true ↦ some s
    | false ↦ elim (body pos s) [
      | none ↦ none
      | some (leave t) ↦ some t
      | some (proceed t) ↦ elim (next t n) [ none ↦ none | some n' ↦ each_safe_from fuel n n' t ]
    ]
  ]

  unfoldable pub list_for_each_safe : ℕ → S → Option S
  unfolding each_safe_from
  list_for_each_safe fuel s = elim (next s head) [
    | none ↦ none
    | some pos ↦ elim (next s pos) [ none ↦ none | some n ↦ each_safe_from fuel pos n s ]
  ]
