-- ===== src/Session/Locks/Progress.antt =====
-- No deadlock.
use usbws_lws.Base.{
  ℕ, zero, suc, ◌+◌, ◌≤◌, ◌<◌, ◌≡◌, ◌≢◌, refl, sym, subst, ◌⊎◌, inl, inr, Bool, Bool-cases, true,
  false, none, some, List, [], ◌∷◌, arith, get_elem?, modify, if◌then◌else◌,
}
use usbws_lws.Session.Locks.{
  Kind, writable, send_complete, recv_queue, Lock, Act, acquire, release, Work,
}
use usbws_lws.Session.Locks.Order.{rank, Above, Orderly, thread-Orderly}
use usbws_lws.Session.Locks.Threads.{
  Thread, same, has, give_back, is_taken, advance, begin_all, Run, begun, went, CanGo, AllDone,
}

List-cases : {A : Type 0} (xs : List A) → (xs ≡ []) ⊎ (xs ≢ [])
List-cases [] = inl refl
List-cases (x ∷ xs) = inr (λ e. cc)

abbrev Sorted : List Lock → Type 0
Sorted [] = Unit
Sorted (h ∷ held) = Above h held × Sorted held

-- The thread holds its locks by falling ranks, and goes on in order.
record IsSound (t : Thread) : Type 0 where
  sorted : Sorted t.held
  orderly : Orderly t.held t.rest

abbrev AllSound : List Thread → Type 0
AllSound [] = Unit
AllSound (t ∷ ts) = IsSound t × AllSound ts

give_back_self : (l : Lock) (held : List Lock) → give_back l (l ∷ held) ≡ held
give_back_self l held = ground arith

some-eq : (t u : Thread) → some t ≡ some u → t ≡ u
some-eq t u e = cc

taken_free : (b : Bool) (t u : Thread) → (if b then none else some t) ≡ some u → t ≡ u
taken_free true t u e = cc
taken_free false t u e = cc

advance-IsSound :
    (ts : List Thread) (held : List Lock) (rest : List Act) (u : Thread)
    → Sorted held
    → Orderly held rest
    → advance ts held rest ≡ some u
    → IsSound u
unfolding advance
advance-IsSound ts held [] u s o e = cc
advance-IsSound ts [] (acquire l ∷ rest) u s (above, o) e =
    subst IsSound (taken_free (is_taken l ts) _ u e) (record { sorted = (above, s); orderly = o })
advance-IsSound ts (h ∷ held) (acquire l ∷ rest) u s (above, o) e =
    subst IsSound (taken_free (is_taken l ts) _ u e) (record { sorted = (above, s); orderly = o })
advance-IsSound ts [] (release l ∷ rest) u s o e = absurd o
advance-IsSound ts (h ∷ held) (release l ∷ rest) u s (top, o) e =
    let left : give_back l (h ∷ held) ≡ held =
      subst (λ m. give_back l (m ∷ held) ≡ held) (sym top) (give_back_self l held) in
    subst IsSound (some-eq _ _ e) (record {
      sorted = subst Sorted (sym left) s.1;
      orderly = subst (λ hs. Orderly hs rest) (sym left) o;
    })

get-AllSound :
    (ts : List Thread) (j : ℕ) (t : Thread) → AllSound ts → get_elem? ts j ≡ some t → IsSound t
get-AllSound [] j t h e = cc
get-AllSound (u ∷ ts) zero t (h, hs) e = subst IsSound (some-eq _ _ e) h
get-AllSound (u ∷ ts) (suc j) t (h, hs) e = get-AllSound ts j t hs e

modify-AllSound :
    (ts : List Thread) (j : ℕ) (u : Thread)
    → AllSound ts
    → IsSound u
    → AllSound (modify ts j (λ _. u))
modify-AllSound [] j u hs h = tt
modify-AllSound (t ∷ ts) zero u (_, hs) h = (h, hs)
modify-AllSound (t ∷ ts) (suc j) u (k, hs) h = (k, modify-AllSound ts j u hs h)

begin_all-AllSound : (wss : List (List Work)) → AllSound (begin_all wss)
begin_all-AllSound [] = tt
begin_all-AllSound (ws ∷ wss) =
    (record { sorted = tt; orderly = thread-Orderly ws }, begin_all-AllSound wss)

Run-AllSound : (wss : List (List Work)) {ts : List Thread} → Run wss ts → AllSound ts
Run-AllSound wss begun = begin_all-AllSound wss
Run-AllSound wss (went j t u {ts} run at e) =
    let sound = Run-AllSound wss run in
    let h = get-AllSound ts j t sound at in
    modify-AllSound ts j u sound (advance-IsSound ts t.held t.rest u h.sorted h.orderly e)

-- Who holds a lock that is taken.
holder :
    (l : Lock) (ts : List Thread)
    → is_taken l ts ≡ true
    → (j : ℕ) × (t : Thread) × (get_elem? ts j ≡ some t) × (has l t.held ≡ true)
holder l [] e = cc
holder l (t ∷ ts) e = elim (Bool-cases (has l t.held)) [
  | inl mine ↦ (0, t, refl, mine)
  | inr other ↦ let (j, u, at, h) = holder l ts (rw other at e) in (suc j, u, at, h)
]

-- One more than the rank of the lock that was taken last.
abbrev level : List Lock → ℕ
level [] = 0
level (h ∷ held) = suc (rank h.kind)

rank-lt-level :
    (l : Lock) (held : List Lock) → Sorted held → has l held ≡ true → rank l.kind < level held
rank-lt-level l [] s e = cc
rank-lt-level l (h ∷ []) s e = ground arith
rank-lt-level l (h ∷ m ∷ held) (above, s) e = elim (Bool-cases (same l h)) [
  | inl mine ↦ ground arith
  | inr other ↦ let below = rank-lt-level l (m ∷ held) s (rw other at e) in omega arith
]

level-le-rank : (l : Lock) (held : List Lock) → Above l held → level held ≤ rank l.kind
level-le-rank l [] a = omega arith
level-le-rank l (h ∷ held) a = omega arith

rank-lt : (k : Kind) → rank k < 3
rank-lt writable = omega arith
rank-lt send_complete = omega arith
rank-lt recv_queue = omega arith

none_held : (held : List Lock) → Orderly held [] → held ≡ []
none_held [] o = refl
none_held (h ∷ held) o = absurd o

acquire-Above :
    (l : Lock) (held : List Lock) (rest : List Act) → Orderly held (acquire l ∷ rest) → Above l held
acquire-Above l [] rest o = tt
acquire-Above l (h ∷ held) rest o = o.0

-- The search goes from a thread that waits to the one that holds the lock it waits for, which has
-- taken a lock of a higher rank; there are three ranks.
goes :
    (n : ℕ) (ts : List Thread) (j : ℕ) (t : Thread) (rest : List Act)
    → AllSound ts
    → get_elem? ts j ≡ some t
    → t.rest ≡ rest
    → Orderly t.held rest
    → (t.held ≢ []) ⊎ (rest ≢ [])
    → 3 ≤ n + level t.held
    → CanGo ts
unfolding advance
goes n ts j t [] sound at e o busy enough =
    let idle = none_held t.held o in
    absurd (elim busy [ inl holds ↦ holds idle | inr more ↦ more refl ])
goes n ts j t (release l ∷ rest) sound at e o busy enough =
    (j, t, record { held = give_back l t.held; rest = rest }, at, rw e)
goes zero ts j t (acquire l ∷ rest) sound at e o busy enough =
    absurd (omega (arith, level-le-rank l t.held (acquire-Above l t.held rest o), rank-lt l.kind))
goes (suc m) ts j t (acquire l ∷ rest) sound at e o busy enough =
    elim (Bool-cases (is_taken l ts)) [
      | inr free ↦ (j, t, record { held = l ∷ t.held; rest = rest }, at, rw (e, free))
      | inl taken ↦
          let (k, u, there, h) = holder l ts taken in
          let s = get-AllSound ts k u sound there in
          goes m ts k u u.rest sound there refl s.orderly (inl (λ none_of. ground (arith, h))) (
            omega (
              arith,
              rank-lt-level l u.held s.sorted h,
              level-le-rank l t.held (acquire-Above l t.held rest o),
            ))
    ]

-- A thread that is not done, if there is one.
unfinished :
    (ts : List Thread)
    → AllDone ts
      ⊎ ((j : ℕ) × (t : Thread) × (get_elem? ts j ≡ some t) × ((t.held ≢ []) ⊎ (t.rest ≢ [])))
unfinished [] = inl tt
unfinished (t ∷ ts) = elim (unfinished ts) [
  | inr (j, u, at, busy) ↦ inr (suc j, u, at, busy)
  | inl done ↦ elim (List-cases t.held) [
    | inr holds ↦ inr (0, t, refl, inl holds)
    | inl idle ↦ elim (List-cases t.rest) [
      | inr more ↦ inr (0, t, refl, inr more)
      | inl over ↦ inl (idle, over, done)
    ]
  ]
]

-- Whatever number of threads, each with any sequence of calls of the session's operations for any
-- connections, on any branches, where a wait for a condition gives its lock back and, woken, takes
-- it again: there is no deadlock among the locks. At each time some thread can take its next step,
-- or all have done their work and hold no lock.
pub Run-progress : (wss : List (List Work)) {ts : List Thread} → Run wss ts → AllDone ts ⊎ CanGo ts
Run-progress wss {ts} run = elim (unfinished ts) [
  | inl done ↦ inl done
  | inr (j, t, at, busy) ↦
      let sound = Run-AllSound wss run in
      let s = get-AllSound ts j t sound at in
      inr (goes 3 ts j t t.rest sound at refl s.orderly busy (omega arith))
]
