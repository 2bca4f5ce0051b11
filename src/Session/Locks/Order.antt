-- ===== src/Session/Locks/Order.antt =====
-- Every thread takes the locks in one order.
use usbws_lws.Base.{ℕ, zero, suc, ◌<◌, ◌≡◌, refl, Bool, List, [], ◌∷◌, ◌++◌, arith}
use usbws_lws.Session.Locks.{
  Kind, writable, send_complete, recv_queue, Lock, of, Act, acquire, release, alone, cond_waits,
  discontinue_locks, wait_recv_locks, session_close_locks, handle_recv_locks, send_data_locks,
  handle_send_request_locks, send_ping_locks, handle_writable_locks, check_session_locks,
  send_finish_locks, recv_locks, Request, request_send_locks, send_locks, Work, discontinues,
  waits_recv, closes, receives, requested, writes, checks, sends, reads, work_locks, thread_locks,
}

abbrev pub rank : Kind → ℕ
rank writable = 0
rank send_complete = 1
rank recv_queue = 2

-- A lock is taken under locks of a lower rank only.
abbrev pub Above : Lock → List Lock → Type 0
Above l [] = Unit
Above l (h ∷ held) = rank h.kind < rank l.kind

-- From the locks that a thread holds, the last one first, what it does takes each further lock in
-- the order of ranks, gives back the last one, and holds none in the end.
abbrev pub Orderly : List Lock → List Act → Type 0
Orderly [] [] = Unit
Orderly (h ∷ held) [] = ⊥
Orderly held (acquire l ∷ acts) = Above l held × Orderly (l ∷ held) acts
Orderly [] (release l ∷ acts) = ⊥
Orderly (h ∷ held) (release l ∷ acts) = (h ≡ l) × Orderly held acts

Orderly-append :
    (held : List Lock) (xs ys : List Act)
    → Orderly held xs
    → Orderly [] ys
    → Orderly held (xs ++ ys)
Orderly-append [] [] ys h k = k
Orderly-append (l ∷ held) [] ys h k = absurd h
Orderly-append [] (acquire l ∷ xs) ys (above, h) k = (tt, Orderly-append (l ∷ []) xs ys h k)
Orderly-append (m ∷ held) (acquire l ∷ xs) ys (above, h) k =
    (above, Orderly-append (l ∷ m ∷ held) xs ys h k)
Orderly-append [] (release l ∷ xs) ys h k = absurd h
Orderly-append (m ∷ held) (release l ∷ xs) ys (same, h) k = (same, Orderly-append held xs ys h k)

alone-Orderly : (l : Lock) → Orderly [] (alone l)
alone-Orderly l = ground arith

cond_waits-Orderly :
    (n : ℕ) (l : Lock) (acts : List Act)
    → Orderly [] acts
    → Orderly (l ∷ []) (cond_waits n l ++ release l ∷ acts)
unfolding cond_waits
cond_waits-Orderly zero l acts h = (refl, h)
cond_waits-Orderly (suc n) l acts h = (refl, (tt, cond_waits-Orderly n l acts h))

module _ (i : ℕ) where
  handle_send_request-Orderly :
      (pending free ended : Bool) → Orderly [] (handle_send_request_locks i pending free ended)
  unfolding handle_send_request_locks send_data_locks
  handle_send_request-Orderly pending free ended = ground arith

  recv-Orderly : (rounds : List ℕ) → Orderly [] (recv_locks i rounds)
  unfolding recv_locks
  recv-Orderly [] = tt
  recv-Orderly (waits ∷ rounds) =
      (tt, cond_waits-Orderly waits (of i recv_queue) (recv_locks i rounds) (recv-Orderly rounds))

  send_finish-Orderly : (waits : ℕ) → Orderly [] (send_finish_locks i waits)
  unfolding send_finish_locks
  send_finish-Orderly waits = (tt, cond_waits-Orderly waits (of i send_complete) [] tt)

request_send-Orderly : (rs : List Request) → Orderly [] (request_send_locks rs)
unfolding request_send_locks
request_send-Orderly [] = tt
request_send-Orderly (r ∷ rs) =
    Orderly-append [] (handle_send_request_locks r.conn r.pending r.free r.ended)
      (request_send_locks rs) (handle_send_request-Orderly r.conn r.pending r.free r.ended)
      (request_send-Orderly rs)

work-Orderly : (w : Work) → Orderly [] (work_locks w)
unfolding work_locks discontinue_locks wait_recv_locks session_close_locks handle_recv_locks
    handle_writable_locks send_data_locks check_session_locks send_ping_locks send_locks
work-Orderly (discontinues i) = ground arith
work-Orderly (waits_recv i cont) = ground arith
work-Orderly (closes i) = ground arith
work-Orderly (receives i is_binary has_memory) = ground arith
work-Orderly (requested i pending free ended) = handle_send_request-Orderly i pending free ended
work-Orderly (writes i pending ended) = ground arith
work-Orderly (checks i cont ping_pong silent due) = ground arith
work-Orderly (sends i rs waits) =
    Orderly-append [] (request_send_locks rs) (send_finish_locks i waits) (request_send-Orderly rs)
      (send_finish-Orderly i waits)
work-Orderly (reads i rounds) = recv-Orderly i rounds

pub thread-Orderly : (ws : List Work) → Orderly [] (thread_locks ws)
unfolding thread_locks
thread-Orderly [] = tt
thread-Orderly (w ∷ ws) =
    Orderly-append [] (work_locks w) (thread_locks ws) (work-Orderly w) (thread-Orderly ws)
