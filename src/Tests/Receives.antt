-- ===== src/Tests/Receives.antt =====
-- Runs of `usbws_recv`.
use usbws_lws.Base.{ℕ, ◌≡◌, ◌<◌, refl, ◌∷◌, [], List, true, arith, pos, length}
use usbws_lws.Session.State.{Session}
use usbws_lws.Session.Recv.{returned, recv}
use usbws_lws.Session.Recv.Drain.{arrivals, recv_gathers}
use usbws_lws.Session.Recv.Pieces.{recv_rereads, recv_overflows}
use usbws_lws.Tests.Data.{calm, session_at}

abbrev first : List ℕ
first = 1 ∷ 2 ∷ []

abbrev second : List ℕ
second = 3 ∷ 4 ∷ 5 ∷ []

abbrev queued : List (List ℕ) → Session
queued frames = session_at (pos 190) frames

recv_gathers_example :
    (t : Session) × (recv (arrivals calm (first ∷ second ∷ [])) 5 true (queued [])
      ≡ returned (pos 5) (1 ∷ 2 ∷ 3 ∷ 4 ∷ 5 ∷ []) t)
    × (t.recv_queue ≡ [])
recv_gathers_example =
    recv_gathers calm refl refl first (second ∷ []) (queued []) refl refl refl
      (omega arith, (omega arith, tt))

-- One byte of `second` was read before; the next is 4, and 3 is returned.
recv_rereads_example :
    (t : Session) × (recv [] 1 true (record (queued (second ∷ [])) { recv_offset = 1 })
      ≡ returned (pos 1) (3 ∷ []) t)
recv_rereads_example =
    recv_rereads [] 1 true second [] (record (queued (second ∷ [])) { recv_offset = 1 }) refl refl
      (omega arith) (omega arith)

recv_overflows_example :
    (t : Session) × (dbuf : List ℕ) × (recv [] 3 true (queued (first ∷ second ∷ []))
      ≡ returned (pos 5) dbuf t)
    × (3 < length dbuf)
recv_overflows_example =
    recv_overflows [] 3 first second [] (queued (first ∷ second ∷ [])) refl refl refl (omega arith)
      (omega arith) (omega arith)
