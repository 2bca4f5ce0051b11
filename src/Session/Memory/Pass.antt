-- ===== src/Session/Memory/Pass.antt =====
-- What the inner loop of `usbws_recv` does to the blocks of the queue.
use usbws_lws.Base.{
  ◌≡◌, refl, sym, subst, ap, ◌∙◌, Bool, false, not, ◌&&◌, List, [], ◌∷◌, ◌++◌, arith,
}
use usbws_lws.Ring.{Ptr}
use usbws_lws.Ring.Chain.{has}
use usbws_lws.Ring.Delete.{list_del-IsRing}
use usbws_lws.Session.Recv.{Pass}
use usbws_lws.Session.Memory.{Heap, set_live, drop_block, Reading}
use usbws_lws.Session.Memory.Queue.{AllLive, contents, IsQueue}

-- What a loop over the blocks `ps` of `r` has done when it ends with `t`: the blocks `gone`, the
-- first of the list, are taken out and freed, and no other; the rest is what a round `p` leaves.
pub record Outcome (head : Ptr) (ps : List Ptr) (r t : Reading) (p : Pass) : Type 0 where
  pub gone : List Ptr
  pub rest : List Ptr
  pub parts : ps ≡ gone ++ rest
  pub queue : IsQueue t.heap head rest
  pub content : t.heap.content ≡ r.heap.content
  pub freed : (a : Ptr) → t.heap.live a ≡ (r.heap.live a && not (has a gone))
  pub left : contents r.heap.content rest ≡ p.queue
  pub offset : t.offset ≡ p.offset
  pub total : t.total ≡ p.total
  pub dbuf : t.dbuf ≡ p.dbuf

pub AllLive-drop :
    (live : Ptr → Bool) (x : Ptr) (ps : List Ptr)
    → AllLive live ps
    → has x ps ≡ false
    → AllLive (set_live x false live) ps
AllLive-drop live x [] all out = tt
AllLive-drop live x (q ∷ ps) all out = (ground arith, AllLive-drop live x ps all.1 (ground arith))

module _ (head x : Ptr) (xs : List Ptr) (r : Reading) (q : IsQueue r.heap head (x ∷ xs)) where
  -- Freeing the first block leaves the queue of the others.
  pub drop_block-IsQueue : IsQueue (drop_block x r.heap) head xs
  drop_block-IsQueue = record {
    ring = list_del-IsRing r.heap.links head [] x xs q.ring;
    live = AllLive-drop r.heap.live x xs q.live.1 q.ring.distinct.0;
  }

  -- What the loop does after the first block is freed it does on the whole queue.
  pub Outcome-drop :
      (r' t : Reading) (p : Pass)
      → r'.heap ≡ drop_block x r.heap
      → Outcome head xs r' t p
      → Outcome head (x ∷ xs) r t p
  Outcome-drop r' t p e o = record {
    gone = x ∷ o.gone;
    rest = o.rest;
    parts = ap (◌∷◌ x) o.parts;
    queue = o.queue;
    content = o.content ∙ ap (λ g. g.content) e;
    freed = λ a. ground (arith, o.freed a, ap (λ (g : Heap). g.live a) e);
    left = ap (λ (g : Heap). contents g.content o.rest) (sym e) ∙ o.left;
    offset = o.offset;
    total = o.total;
    dbuf = o.dbuf;
  }

-- A loop that ends at once, with nothing freed.
pub Outcome-stay :
    (head : Ptr) (ps : List Ptr) (r t : Reading) (p : Pass)
    → IsQueue r.heap head ps
    → t.heap ≡ r.heap
    → contents r.heap.content ps ≡ p.queue
    → (t.offset ≡ p.offset) × (t.total ≡ p.total) × (t.dbuf ≡ p.dbuf)
    → Outcome head ps r t p
Outcome-stay head ps r t p q e left (offset, total, dbuf) = record {
  gone = [];
  rest = ps;
  parts = refl;
  queue = subst (λ g. IsQueue g head ps) (sym e) q;
  content = ap (λ g. g.content) e;
  freed = λ a. ground (arith, ap (λ (g : Heap). g.live a) e);
  left = left;
  offset = offset;
  total = total;
  dbuf = dbuf;
}
