-- ===== src/Session/Memory/Receive.antt =====
-- A frame that arrives: the block at the end of the list is the frame at the end of the queue.
use usbws_lws.Base.{
  ◌≡◌, ◌≢◌, refl, ap, ◌∙◌, Bool, true, false, Option, none, some, List, [], ◌∷◌, ◌++◌, arith,
  is_some, ℕ,
}
use usbws_lws.Ring.{Ptr}
use usbws_lws.Ring.Chain.{has}
use usbws_lws.Ring.Insert.{list_add_tail-IsRing}
use usbws_lws.Session.State.{Session, Io}
use usbws_lws.Session.Recv.{handle_recv}
use usbws_lws.Session.Memory.{Heap, set_content, set_live, enqueue}
use usbws_lws.Session.Memory.Queue.{AllLive, contents, Represents}

-- A block that is not allocated is not on the list.
not_has :
    (live : Ptr → Bool) (p : Ptr) (ps : List Ptr)
    → AllLive live ps
    → live p ≡ false
    → has p ps ≡ false
not_has live p [] all dead = refl
not_has live p (q ∷ ps) all dead = ground (arith, not_has live p ps all.1 dead)

AllLive-snoc :
    (live : Ptr → Bool) (p : Ptr) (ps : List Ptr)
    → AllLive live ps
    → AllLive (set_live p true live) (ps ++ p ∷ [])
AllLive-snoc live p [] all = (ground arith, tt)
AllLive-snoc live p (q ∷ ps) all = (ground arith, AllLive-snoc live p ps all.1)

contents-snoc :
    (content : Ptr → List ℕ) (p : Ptr) (frame : List ℕ) (ps : List Ptr)
    → has p ps ≡ false
    → contents (set_content p frame content) (ps ++ p ∷ []) ≡ contents content ps ++ frame ∷ []
contents-snoc content p frame [] out = ground arith
contents-snoc content p frame (q ∷ ps) out = ground (arith, contents-snoc content p frame ps)

-- Where the heap holds the queue of a session and `malloc` gives a block that was not allocated, or
-- NULL, the code on the list does what the model of the session does on its queue: afterwards the
-- heap holds the new queue, with the same return value, and no other block has been allocated or
-- freed.
pub enqueue-Represents :
    (h : Heap) (head : Ptr) (s : Session) (io : Io) (frame : List ℕ) (block : Option Ptr)
    → Represents h head s
    → io.frame_is_binary ≡ true
    → io.memory_left ≡ is_some block
    → ((p : Ptr) → block ≡ some p → (h.live p ≡ false) × (p ≢ head))
    → let (ret, g) = enqueue block frame head h in
      (ret ≡ (handle_recv io frame s).0)
      × Represents g head (handle_recv io frame s).1
      × ((a : Ptr) → block ≢ some a → g.live a ≡ h.live a)
unfolding enqueue handle_recv
enqueue-Represents h head s io frame none (ps, queue, held) binary memory fresh =
    (ground arith, (ps, queue, ground arith), λ a other. refl)
enqueue-Represents h head s io frame (some p) (ps, queue, held) binary memory fresh = (
  ground arith,
  (
    ps ++ p ∷ [],
    record {
      ring = list_add_tail-IsRing h.links head p ps queue.ring (fresh p refl).1 out;
      live = AllLive-snoc h.live p ps queue.live;
    },
    contents-snoc h.content p frame ps out ∙ ground arith,
  ),
  λ a other. ground (arith, ap {A = Ptr} some),
)
  where
    out : has p ps ≡ false
    out = not_has h.live p ps queue.live (fresh p refl).0
