-- ===== src/Session/Locks/Threads.antt =====
-- Any number of threads that take and give back the locks of the sessions.
use usbws_lws.Base.{
  ℕ, ◌≡◌, Bool, false, ◌&&◌, ◌||◌, ◌==◌, Option, none, some, List, [], ◌∷◌, get_elem?, modify,
  if◌then◌else◌,
}
use usbws_lws.Session.Locks.{Lock, Act, acquire, release, Work, thread_locks}
use usbws_lws.Session.Locks.Order.{rank}

-- The locks that a thread holds, the last one first, and what it is still to do.
pub record Thread : Type 0 where
  pub held : List Lock
  pub rest : List Act

abbrev pub same : Lock → Lock → Bool
same l m = l.conn == m.conn && rank l.kind == rank m.kind

abbrev pub has : Lock → List Lock → Bool
has l [] = false
has l (h ∷ held) = same l h || has l held

abbrev pub give_back : Lock → List Lock → List Lock
give_back l [] = []
give_back l (h ∷ held) = if same l h then held else h ∷ give_back l held

abbrev pub is_taken : Lock → List Thread → Bool
is_taken l [] = false
is_taken l (t ∷ ts) = has l t.held || is_taken l ts

-- The next step of a thread among `ts`; `none` where it waits for a lock, or has come to its end.
unfoldable pub advance : List Thread → (held : List Lock) → (rest : List Act) → Option Thread
advance ts held [] = none
advance ts held (acquire l ∷ rest) =
    if is_taken l ts then none else some (record { held = l ∷ held; rest = rest })
advance ts held (release l ∷ rest) = some (record { held = give_back l held; rest = rest })

abbrev pub begin : List Work → Thread
begin ws = record { held = []; rest = thread_locks ws }

abbrev pub begin_all : List (List Work) → List Thread
begin_all [] = []
begin_all (ws ∷ wss) = begin ws ∷ begin_all wss

-- The states that the threads come to, whichever goes on at each time.
pub data Run (wss : List (List Work)) : List Thread → Type 0 where
  begun : Run wss (begin_all wss)
  went :
      (j : ℕ) (t u : Thread) {ts : List Thread}
      → Run wss ts
      → get_elem? ts j ≡ some t
      → advance ts t.held t.rest ≡ some u
      → Run wss (modify ts j (λ _. u))

-- Some thread can go on.
abbrev pub CanGo : List Thread → Type 0
CanGo ts =
    (j : ℕ) × (t : Thread) × (u : Thread) × (get_elem? ts j ≡ some t)
    × (advance ts t.held t.rest ≡ some u)

-- All threads have done what they were to do, and hold no lock.
abbrev pub AllDone : List Thread → Type 0
AllDone [] = Unit
AllDone (t ∷ ts) = (t.held ≡ []) × (t.rest ≡ []) × AllDone ts
