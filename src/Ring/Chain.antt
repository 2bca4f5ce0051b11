-- ===== src/Ring/Chain.antt =====
-- Doubly linked chains between two addresses, and the rings that they close to.
use usbws_lws.Base.{◌≡◌, ◌≢◌, refl, Bool, true, false, ◌||◌, List, [], ◌∷◌, ◌++◌, arith, ◌==◌}
use usbws_lws.Ring.{Ptr, Links}

abbrev pub has : Ptr → List Ptr → Bool
has a [] = false
has a (x ∷ xs) = (a == x) || has a xs

abbrev pub Distinct : List Ptr → Type 0
Distinct [] = Unit
Distinct (x ∷ xs) = (has x xs ≡ false) × Distinct xs

-- `next` leads from `p` through `xs` to `q`, and `prev` the same way back.
abbrev pub Chain : Links → Ptr → List Ptr → Ptr → Type 0
Chain m p [] q = ((m p).next ≡ q) × ((m q).prev ≡ p)
Chain m p (x ∷ xs) q = ((m p).next ≡ x) × ((m x).prev ≡ p) × Chain m x xs q

-- The list at `head` holds the entries `xs`, in order.
pub record IsRing (m : Links) (head : Ptr) (xs : List Ptr) : Type 0 where
  pub chain : Chain m head xs head
  pub apart : has head xs ≡ false
  pub distinct : Distinct xs

-- The last link starts at the chain's start or at one of its entries.
pub prev_mem :
    (m : Links) (p : Ptr) (xs : List Ptr) (q : Ptr)
    → Chain m p xs q
    → has (m q).prev (p ∷ xs) ≡ true
prev_mem m p [] q c = ground arith
prev_mem m p (x ∷ xs) q c = ground (arith, prev_mem m x xs q c.2)

pub has-append : (a : Ptr) (xs ys : List Ptr) → has a (xs ++ ys) ≡ (has a xs || has a ys)
has-append a [] ys = refl
has-append a (x ∷ xs) ys = ground (arith, has-append a xs ys)

-- Writes that spare the pointers of a chain keep it.
pub Chain-frame :
    (m m' : Links) (p : Ptr) (xs : List Ptr) (q : Ptr)
    → ((c : Ptr) → has c (p ∷ xs) ≡ true → (m' c).next ≡ (m c).next)
    → ((c : Ptr) → has c xs ≡ true → (m' c).prev ≡ (m c).prev)
    → (m' q).prev ≡ (m q).prev
    → Chain m p xs q
    → Chain m' p xs q
Chain-frame m m' p [] q fn fp fq c = ground (arith, fn p)
Chain-frame m m' p (x ∷ xs) q fn fp fq c = (
  ground (arith, fn p),
  ground (arith, fp x),
  Chain-frame m m' x xs q (λ a i. fn a (ground arith)) (λ a i. fp a (ground arith)) fq c.2,
)

-- Moving the end of the last link from `q` to `n`.
pub Chain-retarget :
    (m m' : Links) (p : Ptr) (xs : List Ptr) (q n : Ptr)
    → Chain m p xs q
    → has p xs ≡ false
    → Distinct xs
    → (m' (m q).prev).next ≡ n
    → (m' n).prev ≡ (m q).prev
    → ((c : Ptr) → has c (p ∷ xs) ≡ true → c ≢ (m q).prev → (m' c).next ≡ (m c).next)
    → ((c : Ptr) → has c xs ≡ true → (m' c).prev ≡ (m c).prev)
    → Chain m' p xs n
Chain-retarget m m' p [] q n c out d en ep fn fp = ground arith
Chain-retarget m m' p (x ∷ xs) q n c out d en ep fn fp = (
  ground (arith, fn p, prev_mem m x xs q c.2),
  ground (arith, fp x),
  Chain-retarget m m' x xs q n c.2 d.0 d.1 en ep (λ a i ne. fn a (ground arith) ne)
      (λ a i. fp a (ground arith)),
)

pub Chain-append :
    (m : Links) (p : Ptr) (xs : List Ptr) (x : Ptr) (ys : List Ptr) (q : Ptr)
    → Chain m p xs x
    → Chain m x ys q
    → Chain m p (xs ++ x ∷ ys) q
Chain-append m p [] x ys q c d = (c.0, c.1, d)
Chain-append m p (z ∷ zs) x ys q c d = (c.0, c.1, Chain-append m z zs x ys q c.2 d)

pub Chain-split :
    (m : Links) (p : Ptr) (xs : List Ptr) (x : Ptr) (ys : List Ptr) (q : Ptr)
    → Chain m p (xs ++ x ∷ ys) q
    → Chain m p xs x × Chain m x ys q
Chain-split m p [] x ys q c = ((c.0, c.1), c.2)
Chain-split m p (z ∷ zs) x ys q c =
    let (front, back) = Chain-split m z zs x ys q c.2 in ((c.0, c.1, front), back)

-- What distinctness of `xs ++ x ∷ ys` gives of its parts.
pub record Parts (xs : List Ptr) (x : Ptr) (ys : List Ptr) : Type 0 where
  pub front : Distinct xs
  pub back : Distinct ys
  pub out_front : has x xs ≡ false
  pub out_back : has x ys ≡ false
  pub crossed : (c : Ptr) → has c xs ≡ true → has c ys ≡ false
  pub whole : Distinct (xs ++ ys)

Parts-cons :
    (z : Ptr) (zs : List Ptr) (x : Ptr) (ys : List Ptr)
    → has z (zs ++ x ∷ ys) ≡ false
    → Parts zs x ys
    → Parts (z ∷ zs) x ys
Parts-cons z zs x ys out parts = record {
  front = (ground (arith, has-append z zs (x ∷ ys)), front);
  back = back;
  out_front = ground (arith, has-append z zs (x ∷ ys));
  out_back = out_back;
  crossed = λ c i. ground (arith, crossed c, has-append z zs (x ∷ ys));
  whole = (ground (arith, has-append z zs (x ∷ ys), has-append z zs ys), whole);
}
  where
    open parts use {front, back, out_front, out_back, crossed, whole}

pub Distinct-Parts :
    (xs : List Ptr) (x : Ptr) (ys : List Ptr) → Distinct (xs ++ x ∷ ys) → Parts xs x ys
Distinct-Parts [] x ys d = record {
  front = tt;
  back = d.1;
  out_front = refl;
  out_back = d.0;
  crossed = λ c i. cc;
  whole = d.1;
}
Distinct-Parts (z ∷ zs) x ys d = Parts-cons z zs x ys d.0 (Distinct-Parts zs x ys d.1)
