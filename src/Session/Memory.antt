-- ===== src/Session/Memory.antt =====
-- The receive queue of src/usbws_session.c in memory: blocks of `struct usbws_recv_buf` on the list
-- `recv_queue`. The list entry is the first field of a block, so that both have one address.
pub mod Queue
pub mod Receive
pub mod Pass
pub mod Read
pub mod Close
use usbws_lws.Base.{
  ◌||◌, ℕ, ◌+◌, ◌-◌, Bool, true, false, Option, none, some, List, [], ◌∷◌, ◌++◌, ℤ, pos, negsuc,
  ltb, leb, length, take, ◌==◌, if◌then◌else◌,
}
use usbws_lws.Ring.{Ptr, Links, list_add_tail, list_del, Turn, proceed, leave, list_for_each_safe}

-- The list pointers, the content of each block, and whether it is allocated.
pub record Heap : Type 0 where
  pub links : Links
  pub content : Ptr → List ℕ
  pub live : Ptr → Bool

abbrev pub set_content : Ptr → List ℕ → (Ptr → List ℕ) → Ptr → List ℕ
set_content p b f a = if a == p then b else f a

abbrev pub set_live : Ptr → Bool → (Ptr → Bool) → Ptr → Bool
set_live p b f a = if a == p then b else f a

-- `usbws_handle_recv` of a binary frame; `block` is what `malloc` returned, `none` for NULL.
unfoldable pub enqueue : (block : Option Ptr) → List ℕ → (head : Ptr) → Heap → ℤ × Heap
enqueue none frame head h = (negsuc 0, h)
enqueue (some p) frame head h = (
  pos 0,
  record {
    links = list_add_tail p head h.links;
    content = set_content p frame h.content;
    live = set_live p true h.live;
  },
)

-- `list_del(p); free(p);`, where `p` is allocated.
abbrev pub drop_block : Ptr → Heap → Heap
drop_block p h = record h { links = list_del p h.links; live = set_live p false h.live }

-- The variables of `usbws_recv` in its inner loop.
pub record Reading : Type 0 where
  pub heap : Heap
  pub offset : ℕ
  pub total : ℕ
  pub dbuf : List ℕ

-- `p->next`; `none` where `p` is neither the head, which is in the session, nor an allocated block.
abbrev pub read_next : (head : Ptr) → Heap → Ptr → Option Ptr
read_next head h p = if p == head || h.live p then some (h.links p).next else none

abbrev pub heap_next : (head : Ptr) → Reading → Ptr → Option Ptr
heap_next head r p = read_next head r.heap p

-- A turn with an allocated block that is not used up.
abbrev pub copy_turn : (len : ℕ) → Ptr → Reading → Turn Reading
copy_turn len p r =
    let rem = length (r.heap.content p) - r.offset in
    let bytes = if ltb len rem then len else rem in
    let copied = record r {
      offset = r.offset + bytes;
      total = r.total + bytes;
      dbuf = r.dbuf ++ take bytes (r.heap.content p);
    } in
    let next =
      if leb (length (r.heap.content p)) copied.offset
      then record copied { heap = drop_block p r.heap; offset = 0 }
      else copied in
    if leb len next.total then leave next else proceed next

-- The body of the inner loop; `none` where the block is not allocated.
unfoldable pub read_turn : (len : ℕ) → Ptr → Reading → Option (Turn Reading)
read_turn len p r =
    if r.heap.live p
    then if leb (length (r.heap.content p)) r.offset
      then some (proceed (record r { heap = drop_block p r.heap; offset = 0 }))
      else some (copy_turn len p r)
    else none

-- The inner loop of `usbws_recv`.
unfoldable pub read_queue : (fuel len : ℕ) → (head : Ptr) → Reading → Option Reading
read_queue fuel len head r = list_for_each_safe (heap_next head) (read_turn len) head fuel r

-- The body of the loop of `usbws_session_close`; `none` where the block is not allocated.
unfoldable pub close_turn : Ptr → Heap → Option (Turn Heap)
close_turn p h = if h.live p then some (proceed (record h { links = list_del p h.links })) else none

-- The loop of `usbws_session_close`, which frees no block.
unfoldable pub close_queue : (fuel : ℕ) → (head : Ptr) → Heap → Option Heap
close_queue fuel head h = list_for_each_safe (read_next head) close_turn head fuel h
