-- ===== src/Session/Memory/Queue.antt =====
-- When a heap holds the receive queue of a session.
use usbws_lws.Base.{ℕ, ◌≡◌, Bool, true, some, List, [], ◌∷◌, arith}
use usbws_lws.Ring.{Ptr}
use usbws_lws.Ring.Chain.{IsRing}
use usbws_lws.Session.State.{Session}
use usbws_lws.Session.Memory.{Heap, read_next}

abbrev pub AllLive : (Ptr → Bool) → List Ptr → Type 0
AllLive live [] = Unit
AllLive live (p ∷ ps) = (live p ≡ true) × AllLive live ps

-- What the blocks hold, in the order of the list.
abbrev pub contents : (Ptr → List ℕ) → List Ptr → List (List ℕ)
contents content [] = []
contents content (p ∷ ps) = content p ∷ contents content ps

-- The list at `head` holds the blocks `ps`, all of them allocated.
pub record IsQueue (h : Heap) (head : Ptr) (ps : List Ptr) : Type 0 where
  pub ring : IsRing h.links head ps
  pub live : AllLive h.live ps

-- The heap holds the queue of the session.
abbrev pub Represents : Heap → Ptr → Session → Type 0
Represents h head s = (ps : List Ptr) × IsQueue h head ps × (contents h.content ps ≡ s.recv_queue)

-- The pointer of the first entry can be read, and so can that of the head.
pub read_next-first :
    (h : Heap) (head : Ptr) (ps : List Ptr) (n : Ptr)
    → IsQueue h head ps
    → n ≡ (h.links head).next
    → read_next head h n ≡ some (h.links n).next
read_next-first h head [] n q e = ground (arith, q.ring.chain)
read_next-first h head (x ∷ xs) n q e = ground (arith, q.ring.chain, q.live)
