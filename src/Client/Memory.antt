-- ===== src/Client/Memory.antt =====
-- The blocks that `malloc` has given out and `free` has not taken back, with their sizes.
use usbws_lws.Base.{
  ℕ, suc, Bool, true, false, Option, none, some, List, [], ◌∷◌, ◌==◌, leb, if◌then◌else◌,
}

pub record Block : Type 0 where
  pub address : ℕ
  pub bytes : ℕ

pub record Memory : Type 0 where
  pub blocks : List Block
  pub fresh : ℕ

-- `none` for NULL.
abbrev pub malloc : (memory_left : Bool) → (bytes : ℕ) → Memory → Option ℕ × Memory
malloc true bytes m = (
  some m.fresh,
  record { blocks = record { address = m.fresh; bytes = bytes } ∷ m.blocks; fresh = suc m.fresh },
)
malloc false bytes m = (none, m)

-- Whether `bytes` can be written from the start of the block at an address.
abbrev pub has_room : (address bytes : ℕ) → List Block → Bool
has_room a n [] = false
has_room a n (b ∷ bs) = if a == b.address then leb n b.bytes else has_room a n bs

-- `none` where no block stands at the address.
abbrev pub release : ℕ → List Block → Option (List Block)
release a [] = none
release a (b ∷ bs) =
    if a == b.address
    then some bs
    else elim (release a bs) [ none ↦ none | some cs ↦ some (b ∷ cs) ]

-- `free`, of NULL too; `none` where C does not define it.
abbrev pub free : Option ℕ → Memory → Option Memory
free none m = some m
free (some a) m = elim (release a m.blocks) [
  | none ↦ none
  | some bs ↦ some (record m { blocks = bs })
]
