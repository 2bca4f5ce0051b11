-- ===== src/Tests/Threads.antt =====
-- Two threads at the locks of one session: the service writes, and the sender asks for a write.
use usbws_lws.Base.{◌⊎◌, refl, true, false, [], ◌∷◌, List}
use usbws_lws.Session.Locks.{
  writable, of, release, Work, writes, requested, work_locks, thread_locks, handle_writable_locks,
  send_data_locks,
}
use usbws_lws.Session.Locks.Threads.{Thread, advance, begin, Run, begun, went, CanGo, AllDone}
use usbws_lws.Session.Locks.Progress.{Run-progress}

abbrev works : List (List Work)
works = (writes 0 true false ∷ []) ∷ (requested 0 true true true ∷ []) ∷ []

-- The first thread holds the lock that the second waits for.
abbrev contended : List Thread
contended =
    record { held = of 0 writable ∷ []; rest = release (of 0 writable) ∷ [] }
    ∷ begin (requested 0 true true true ∷ [])
    ∷ []

contended-Run : Run works contended
unfolding advance thread_locks work_locks handle_writable_locks send_data_locks
contended-Run = went 0 (begin (writes 0 true false ∷ [])) _ begun refl refl

Run-progress_example : AllDone contended ⊎ CanGo contended
Run-progress_example = Run-progress works contended-Run
