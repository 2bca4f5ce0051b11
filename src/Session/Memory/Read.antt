-- ===== src/Session/Memory/Read.antt =====
-- The inner loop of `usbws_recv` on the list: it does what the model of a round does on the queue,
-- and frees exactly the blocks that are used up.
use usbws_lws.Base.{
  ℕ, zero, suc, ◌+◌, ◌-◌, ◌<◌, ◌≡◌, refl, sym, subst, ap, ◌∙◌, false, some, List, [], ◌∷◌, ◌++◌,
  arith, length, take, ◌==◌, inl, inr,
}
use usbws_lws.Ring.{Ptr, proceed, leave, each_safe_from}
use usbws_lws.Ring.Delete.{list_del-first}
use usbws_lws.Ring.Loop.{loop_start, turn_proceed, turn_leave, turn_end}
use usbws_lws.Session.State.{Session}
use usbws_lws.Session.Recv.{Pass, recv_pass}
use usbws_lws.Session.Recv.Account.{recv_pass_cases}
use usbws_lws.Session.Memory.{Heap, drop_block, Reading, heap_next, read_turn, read_queue}
use usbws_lws.Session.Memory.Pass.{Outcome, drop_block-IsQueue, Outcome-drop, Outcome-stay}
use usbws_lws.Session.Memory.Queue.{contents, IsQueue, read_next-first}

-- What is left of the loop's work, from the entry at `pos`.
abbrev Ends : (fuel len : ℕ) → (head : Ptr) → List Ptr → (pos n : Ptr) → Reading → Type 0
Ends fuel len head ps pos n r =
    (t : Reading) × (each_safe_from (heap_next head) (read_turn len) head fuel pos n r ≡ some t)
    × Outcome head ps r t (recv_pass len (contents r.heap.content ps) r.offset r.total r.dbuf)

module _ (fuel len : ℕ) (head x : Ptr) (xs : List Ptr) (n : Ptr) (r : Reading)
    (q : IsQueue r.heap head (x ∷ xs)) where
  inside : (x == head) ≡ false
  inside = ground (arith, q.ring.apart)

  -- The variables with the block at `x` freed.
  abbrev dropped : (offset total : ℕ) → List ℕ → Reading
  dropped offset total dbuf = record {
    heap = drop_block x r.heap;
    offset = offset;
    total = total;
    dbuf = dbuf;
  }

  abbrev round : Pass
  round = recv_pass len (contents r.heap.content (x ∷ xs)) r.offset r.total r.dbuf

  free_on :
      (offset total : ℕ) (dbuf : List ℕ)
      → let s = dropped offset total dbuf in
        read_turn len x r ≡ some (proceed s)
        → round ≡ recv_pass len (contents r.heap.content xs) offset total dbuf
        → (heap_next head s n ≡ some (s.heap.links n).next)
          × Ends fuel len head xs n (s.heap.links n).next s
        → Ends (suc fuel) len head (x ∷ xs) x n r
  free_on offset total dbuf turn same (readable, (t, run, o)) = (
    t,
    turn_proceed (heap_next head) (read_turn len) head fuel x n _ r (dropped offset total dbuf)
          inside turn readable
        ∙ run,
    subst (Outcome head (x ∷ xs) r t) (sym same)
        (Outcome-drop head x xs r q (dropped offset total dbuf) t _ refl o),
  )

  free_last :
      (offset total : ℕ) (dbuf : List ℕ)
      → let s = dropped offset total dbuf in
        read_turn len x r ≡ some (leave s)
        → round ≡ record {
          queue = contents r.heap.content xs;
          offset = offset;
          total = total;
          dbuf = dbuf;
        }
        → Ends (suc fuel) len head (x ∷ xs) x n r
  free_last offset total dbuf turn same = (
    s,
    turn_leave (heap_next head) (read_turn len) head fuel x n r s inside turn,
    subst (Outcome head (x ∷ xs) r s) (sym same) (
        Outcome-drop head x xs r q s s _ refl (
          Outcome-stay head xs s s _ (drop_block-IsQueue head x xs r q) refl refl
            (refl, refl, refl))),
  )
    where
      s : Reading
      s = dropped offset total dbuf

  keep :
      (offset total : ℕ) (dbuf : List ℕ)
      → let s = record r { offset = offset; total = total; dbuf = dbuf } in
        read_turn len x r ≡ some (leave s)
        → round ≡ record {
          queue = contents r.heap.content (x ∷ xs);
          offset = offset;
          total = total;
          dbuf = dbuf;
        }
        → Ends (suc fuel) len head (x ∷ xs) x n r
  keep offset total dbuf turn same = (
    s,
    turn_leave (heap_next head) (read_turn len) head fuel x n r s inside turn,
    subst (Outcome head (x ∷ xs) r s) (sym same)
        (Outcome-stay head (x ∷ xs) r s _ q refl refl (refl, refl, refl)),
  )
    where
      s : Reading
      s = record r { offset = offset; total = total; dbuf = dbuf }

  -- One turn and the rest of the loop.
  read_step :
      ((offset total : ℕ) (dbuf : List ℕ)
        → let s = dropped offset total dbuf in
          (heap_next head s n ≡ some (s.heap.links n).next)
          × Ends fuel len head xs n (s.heap.links n).next s)
      → Ends (suc fuel) len head (x ∷ xs) x n r
  unfolding read_turn
  read_step rec =
      elim (recv_pass_cases len b (contents r.heap.content xs) r.offset r.total r.dbuf) [
        | inl (used, e) ↦ free_on 0 r.total r.dbuf (ground (arith, q.live)) e (rec 0 r.total r.dbuf)
        | inr (inl (left, short, full, e)) ↦
            free_last 0 (r.total + rem) (r.dbuf ++ take rem b) (ground (arith, q.live)) e
        | inr (inr (inl (left, more, e))) ↦
            free_on 0 (r.total + rem) (r.dbuf ++ take rem b) (ground (arith, q.live)) e
              (rec 0 (r.total + rem) (r.dbuf ++ take rem b))
        | inr (inr (inr (long, e))) ↦
            keep (r.offset + len) (r.total + len) (r.dbuf ++ take len b) (ground (arith, q.live)) e
      ]
    where
      b : List ℕ
      b = r.heap.content x

      rem : ℕ
      rem = length b - r.offset

read_from :
    (fuel len : ℕ) (head : Ptr) (ps : List Ptr) (pos n : Ptr) (r : Reading)
    → IsQueue r.heap head ps
    → pos ≡ (r.heap.links head).next
    → n ≡ (r.heap.links pos).next
    → length ps < fuel
    → Ends fuel len head ps pos n r
unfolding recv_pass
read_from zero len head ps pos n r q e e' lt = absurd (omega arith)
read_from (suc fuel) len head [] pos n r q e e' lt = (
  r,
  turn_end (heap_next head) (read_turn len) head fuel pos n r (ground (arith, q.ring.chain)),
  Outcome-stay head [] r r _ q refl refl (refl, refl, refl),
)
read_from (suc fuel) len head (x ∷ xs) pos n r q e e' lt =
    let first : pos ≡ x = ground (arith, q.ring.chain) in
    subst (λ a. Ends (suc fuel) len head (x ∷ xs) a n r) (sym first)
      (read_step fuel len head x xs n r q (λ offset total dbuf.
        let after = drop_block-IsQueue head x xs r q in
        let second =
          e'
          ∙ ap (λ a. (r.heap.links a).next) first
          ∙ sym (list_del-first r.heap.links head x xs q.ring) in
        (
          read_next-first (drop_block x r.heap) head xs n after second,
          read_from fuel len head xs n _ (dropped fuel len head x xs n r q offset total dbuf) after
              second refl (omega arith),
        )))

-- Where the heap holds the blocks `ps` as the queue of a session, the loop of `usbws_recv` on the
-- list ends, with at most a turn for each block and one to stop. It neither handles a block that is
-- not allocated nor reads its next pointer, though the loop frees blocks as it goes. It does what the model of a round does on the queue: the same bytes, total and offset; afterwards
-- the heap holds the queue that the round leaves. It frees the blocks that it takes off the list,
-- those at its front, and no other.
pub read_queue-Outcome :
    (fuel len : ℕ) (head : Ptr) (ps : List Ptr) (h : Heap) (s : Session) (total : ℕ) (dbuf : List ℕ)
    → IsQueue h head ps
    → contents h.content ps ≡ s.recv_queue
    → length ps < fuel
    → let r : Reading = record { heap = h; offset = s.recv_offset; total = total; dbuf = dbuf } in
      (t : Reading) × (read_queue fuel len head r ≡ some t)
      × Outcome head ps r t (recv_pass len s.recv_queue s.recv_offset total dbuf)
unfolding read_queue
read_queue-Outcome fuel len head ps h s total dbuf q held lt =
    let (t, run, o) = read_from fuel len head ps _ _ r q refl refl lt in
    (
      t,
      loop_start (heap_next head) (read_turn len) head fuel _ _ r (ground arith)
            (read_next-first h head ps _ q refl)
          ∙ run,
      rw held at o,
    )
  where
    r : Reading
    r = record { heap = h; offset = s.recv_offset; total = total; dbuf = dbuf }
