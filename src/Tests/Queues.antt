-- ===== src/Tests/Queues.antt =====
-- The receive queue in memory: the blocks 1 and 2 on the list at 0.
use usbws_lws.Base.{
  ℕ, ◌≡◌, ◌≢◌, refl, ap, sym, ◌||◌, some, [], ◌∷◌, arith, pos, ◌==◌, if◌then◌else◌,
}
use usbws_lws.Ring.{Ptr}
use usbws_lws.Session.State.{Session}
use usbws_lws.Session.Recv.{handle_recv, recv_pass, session_close}
use usbws_lws.Session.Memory.{Heap, Reading, enqueue, read_queue, close_queue}
use usbws_lws.Session.Memory.Queue.{AllLive, IsQueue, Represents}
use usbws_lws.Session.Memory.Receive.{enqueue-Represents}
use usbws_lws.Session.Memory.Pass.{Outcome}
use usbws_lws.Session.Memory.Read.{read_queue-Outcome}
use usbws_lws.Session.Memory.Close.{close_queue_leaks}
use usbws_lws.Tests.Data.{calm, session_at}
use usbws_lws.Tests.Rings.{memory, memory-IsRing}

abbrev heap : Heap
heap = record {
  links = memory;
  content = λ p. if p == 1 then 7 ∷ 8 ∷ [] else 9 ∷ [];
  live = λ p. (p == 1) || (p == 2);
}

abbrev frames : Session
frames = session_at (pos 190) ((7 ∷ 8 ∷ []) ∷ (9 ∷ []) ∷ [])

heap-IsQueue : IsQueue heap 0 (1 ∷ 2 ∷ [])
heap-IsQueue = record { ring = memory-IsRing; live = (refl, (refl, tt)) }

some_injective : (p : Ptr) → some 3 ≡ some p → ◌≡◌ {A = ℕ} 3 p
some_injective p e = ground arith

enqueue-Represents_example :
    let (ret, g) = enqueue (some 3) (5 ∷ []) 0 heap in
    (ret ≡ (handle_recv calm (5 ∷ []) frames).0)
    × Represents g 0 (handle_recv calm (5 ∷ []) frames).1
    × ((a : Ptr) → some 3 ≢ some a → g.live a ≡ heap.live a)
enqueue-Represents_example =
    enqueue-Represents heap 0 frames calm (5 ∷ []) (some 3) (1 ∷ 2 ∷ [], heap-IsQueue, refl) refl
      refl (λ p e. (ap heap.live (sym (some_injective p e)), ground (arith, some_injective p e)))

read_queue-Outcome_example :
    let r : Reading = record { heap = heap; offset = 0; total = 0; dbuf = [] } in
    (t : Reading) × (read_queue 3 2 0 r ≡ some t)
    × Outcome 0 (1 ∷ 2 ∷ []) r t (recv_pass 2 frames.recv_queue 0 0 [])
read_queue-Outcome_example =
    read_queue-Outcome 3 2 0 (1 ∷ 2 ∷ []) heap frames 0 [] heap-IsQueue refl (omega arith)

close_queue_leaks_example :
    (g : Heap) × (close_queue 3 0 heap ≡ some g)
    × Represents g 0 (session_close frames)
    × AllLive g.live (1 ∷ 2 ∷ [])
close_queue_leaks_example =
    close_queue_leaks heap 0 frames (1 ∷ 2 ∷ []) 3 heap-IsQueue (omega arith)
