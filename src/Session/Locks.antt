-- ===== src/Session/Locks.antt =====
-- The order in which the code takes the locks of the sessions: `writable_lock`,
-- `send_complete_lock` and `recv_queue_lock`. The lock of a client is never taken with one of these.
pub mod Order
pub mod Threads
pub mod Progress
use usbws_lws.Base.{ℕ, zero, suc, Bool, List, [], ◌∷◌, ◌++◌, if◌then◌else◌}

pub data Kind : Type 0 where
  writable send_complete recv_queue : Kind

-- A lock of the session of a connection.
pub record Lock : Type 0 where
  pub conn : ℕ
  pub kind : Kind

pub data Act : Type 0 where
  acquire release : Lock → Act

abbrev pub of : ℕ → Kind → Lock
of i kind = record { conn = i; kind = kind }

-- What is done under a lock takes no other one.
abbrev pub alone : Lock → List Act
alone l = acquire l ∷ release l ∷ []

-- `pthread_cond_wait`, as often as it is called, gives the lock back and takes it again.
unfoldable pub cond_waits : ℕ → Lock → List Act
cond_waits zero l = []
cond_waits (suc n) l = release l ∷ acquire l ∷ cond_waits n l

-- A test of the source is an argument: `pending` is `send_buf`, `ended` that the message has been
-- sent to its end.
module _ (i : ℕ) where
  unfoldable pub discontinue_locks : List Act
  discontinue_locks = alone (of i send_complete) ++ alone (of i recv_queue)

  -- `retry` is 1, so that the loop takes at most one turn.
  unfoldable pub wait_recv_locks : (cont : Bool) → List Act
  wait_recv_locks cont = if cont then alone (of i recv_queue) else []

  unfoldable pub session_close_locks : List Act
  unfolding discontinue_locks
  session_close_locks = alone (of i recv_queue) ++ discontinue_locks

  unfoldable pub handle_recv_locks : (is_binary has_memory : Bool) → List Act
  handle_recv_locks is_binary has_memory =
      if is_binary then if has_memory then alone (of i recv_queue) else [] else []

  unfoldable pub send_data_locks : (ended : Bool) → List Act
  send_data_locks ended = if ended then alone (of i send_complete) else []

  unfoldable pub handle_send_request_locks : (pending free ended : Bool) → List Act
  unfolding send_data_locks
  handle_send_request_locks pending free ended =
      if pending
      then acquire (of i writable)
        ∷ ((if free then send_data_locks ended else []) ++ release (of i writable) ∷ [])
      else []

  unfoldable pub send_ping_locks : List Act
  send_ping_locks = alone (of i writable)

  unfoldable pub handle_writable_locks : (pending ended : Bool) → List Act
  unfolding send_data_locks
  handle_writable_locks pending ended =
      acquire (of i writable)
      ∷ ((if pending then send_data_locks ended else []) ++ release (of i writable) ∷ [])

  unfoldable pub check_session_locks : (cont ping_pong silent due : Bool) → List Act
  unfolding send_ping_locks discontinue_locks
  check_session_locks cont ping_pong silent due =
      if cont
      then if ping_pong
        then if silent
          then discontinue_locks ++ send_ping_locks
          else if due
          then send_ping_locks
          else []
        else []
      else send_ping_locks

  -- From the wait on.
  unfoldable pub send_finish_locks : (waits : ℕ) → List Act
  unfolding cond_waits
  send_finish_locks waits =
      acquire (of i send_complete)
      ∷ (cond_waits waits (of i send_complete) ++ release (of i send_complete) ∷ [])

  -- The rounds of the outer loop, by the number of waits in each.
  unfoldable pub recv_locks : (rounds : List ℕ) → List Act
  unfolding cond_waits
  recv_locks [] = []
  recv_locks (waits ∷ rounds) =
      acquire (of i recv_queue)
      ∷ (cond_waits waits (of i recv_queue) ++ release (of i recv_queue) ∷ recv_locks rounds)

-- What `usbws_request_send` finds at a connection.
pub record Request : Type 0 where
  pub conn : ℕ
  pub pending : Bool
  pub free : Bool
  pub ended : Bool

unfoldable pub request_send_locks : List Request → List Act
unfolding handle_send_request_locks
request_send_locks [] = []
request_send_locks (r ∷ rs) =
    handle_send_request_locks r.conn r.pending r.free r.ended ++ request_send_locks rs

unfoldable pub send_locks : (i : ℕ) → List Request → (waits : ℕ) → List Act
unfolding request_send_locks send_finish_locks
send_locks i rs waits = request_send_locks rs ++ send_finish_locks i waits

-- The calls that a thread makes for a connection, with the branches that they take.
pub data Work : Type 0 where
  discontinues : (i : ℕ) → Work
  waits_recv : (i : ℕ) → (cont : Bool) → Work
  closes : (i : ℕ) → Work
  receives : (i : ℕ) → (is_binary has_memory : Bool) → Work
  requested : (i : ℕ) → (pending free ended : Bool) → Work
  writes : (i : ℕ) → (pending ended : Bool) → Work
  checks : (i : ℕ) → (cont ping_pong silent due : Bool) → Work
  sends : (i : ℕ) → List Request → (waits : ℕ) → Work
  reads : (i : ℕ) → (rounds : List ℕ) → Work

unfoldable pub work_locks : Work → List Act
unfolding discontinue_locks wait_recv_locks session_close_locks handle_recv_locks
    handle_send_request_locks handle_writable_locks check_session_locks send_locks recv_locks
work_locks (discontinues i) = discontinue_locks i
work_locks (waits_recv i cont) = wait_recv_locks i cont
work_locks (closes i) = session_close_locks i
work_locks (receives i is_binary has_memory) = handle_recv_locks i is_binary has_memory
work_locks (requested i pending free ended) = handle_send_request_locks i pending free ended
work_locks (writes i pending ended) = handle_writable_locks i pending ended
work_locks (checks i cont ping_pong silent due) = check_session_locks i cont ping_pong silent due
work_locks (sends i rs waits) = send_locks i rs waits
work_locks (reads i rounds) = recv_locks i rounds

unfoldable pub thread_locks : List Work → List Act
unfolding work_locks
thread_locks [] = []
thread_locks (w ∷ ws) = work_locks w ++ thread_locks ws
