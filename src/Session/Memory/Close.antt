-- ===== src/Session/Memory/Close.antt =====
-- The end of a session: its list is emptied, and its blocks stay allocated.
use usbws_lws.Base.{
  ℕ, zero, suc, ◌<◌, ◌≡◌, refl, sym, subst, ap, ◌∙◌, false, some, List, [], ◌∷◌, length, ◌==◌,
  arith,
}
use usbws_lws.Ring.{Ptr, list_del, each_safe_from}
use usbws_lws.Ring.Chain.{IsRing}
use usbws_lws.Ring.Delete.{list_del-IsRing, list_del-first}
use usbws_lws.Ring.Loop.{loop_start, turn_end, turn_proceed}
use usbws_lws.Session.State.{Session, discontinue}
use usbws_lws.Session.Recv.{session_close}
use usbws_lws.Session.Memory.{Heap, read_next, close_turn, close_queue}
use usbws_lws.Session.Memory.Queue.{AllLive, IsQueue, Represents, read_next-first}

-- What the loop from the entry at `pos` leaves: an empty list, and the same blocks.
abbrev Emptied : (fuel : ℕ) → (head pos n : Ptr) → Heap → Heap → Type 0
Emptied fuel head pos n h g =
    (each_safe_from (read_next head) close_turn head fuel pos n h ≡ some g)
    × IsRing g.links head []
    × (g.live ≡ h.live)

close_from :
    (fuel : ℕ) (head : Ptr) (ps : List Ptr) (pos n : Ptr) (h : Heap)
    → IsQueue h head ps
    → pos ≡ (h.links head).next
    → n ≡ (h.links pos).next
    → length ps < fuel
    → (g : Heap) × Emptied fuel head pos n h g
unfolding close_turn
close_from zero head ps pos n h q e e' lt = absurd (omega arith)
close_from (suc fuel) head [] pos n h q e e' lt = (
  h,
  (
    turn_end (read_next head) close_turn head fuel pos n h (ground (arith, q.ring.chain)),
    q.ring,
    refl,
  ),
)
close_from (suc fuel) head (x ∷ xs) pos n h q e e' lt =
    let first : pos ≡ x = ground (arith, q.ring.chain) in
    let inside : (x == head) ≡ false = ground (arith, q.ring.apart) in
    let second =
      e' ∙ ap (λ a. (h.links a).next) first ∙ sym (list_del-first h.links head x xs q.ring) in
    let (g, (run, ring, live)) = close_from fuel head xs n _ k after second refl (omega arith) in
    (
      g,
      (
        subst (λ a. each_safe_from (read_next head) close_turn head (suc fuel) a n h ≡ some g)
            (sym first)
            (turn_proceed (read_next head) close_turn head fuel x n _ h k inside
                (ground (arith, q.live)) (read_next-first k head xs n after second)
              ∙ run),
        ring,
        live,
      ),
    )
  where
    k : Heap
    k = record h { links = list_del x h.links }

    after : IsQueue k head xs
    after = record { ring = list_del-IsRing h.links head [] x xs q.ring; live = q.live.1 }

-- Where the heap holds the queue of a session in the blocks `ps`, the loop of `usbws_session_close`
-- ends, with a turn for each block and one to stop; the heap then holds the queue of the closed
-- session, and every block of `ps` is still allocated: none of them is freed.
pub close_queue_leaks :
    (h : Heap) (head : Ptr) (s : Session) (ps : List Ptr) (fuel : ℕ)
    → IsQueue h head ps
    → length ps < fuel
    → (g : Heap) × (close_queue fuel head h ≡ some g)
      × Represents g head (session_close s)
      × AllLive g.live ps
unfolding close_queue session_close discontinue
close_queue_leaks h head s ps fuel queue enough =
    let (g, (run, ring, live)) = close_from fuel head ps _ _ h queue refl refl enough in
    (
      g,
      loop_start (read_next head) close_turn head fuel _ _ h (ground arith)
            (read_next-first h head ps _ queue refl)
          ∙ run,
      ([], record { ring = ring; live = tt }, refl),
      subst (λ l. AllLive l ps) (sym live) queue.live,
    )
