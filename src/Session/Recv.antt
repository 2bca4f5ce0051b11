-- ===== src/Session/Recv.antt =====
-- Receiving: frames go into the queue, `usbws_recv` copies them out.
pub mod Drain
pub mod Wait
pub mod Account
pub mod Offset
pub mod Pieces
use usbws_lws.Base.{
  ℕ, zero, suc, ◌+◌, ◌-◌, Bool, true, false, not, ◌&&◌, ◌||◌, Option, none, some, List, [], ◌∷◌,
  ◌++◌, ℤ, pos, negsuc, ltb, leb, length, take, if◌then◌else◌,
}
use usbws_lws.Session.State.{Session, Io, log, signal_recv, slept, discontinue}

abbrev pub is_empty : List (List ℕ) → Bool
is_empty [] = true
is_empty (_ ∷ _) = false

-- `usbws_handle_recv`: `list_add_tail` puts the frame behind the others.
unfoldable pub handle_recv : Io → List ℕ → Session → ℤ × Session
handle_recv io frame s =
    if io.frame_is_binary
    then if io.memory_left
      then (pos 0, log signal_recv (record s { recv_queue = s.recv_queue ++ frame ∷ [] }))
      else (negsuc 0, s)
    else (pos 0, s)

-- The loop of `usbws_wait_recv`; the Boolean is `queued`. The other threads run during a sleep.
unfoldable pub wait_recv_loop : (retry : ℕ) → Io → Bool → Session → Bool × Session
wait_recv_loop zero io queued s = (queued, s)
wait_recv_loop (suc retry) io queued s =
    let rest = wait_recv_loop retry io true (io.asleep (log slept s)) in
    if s.cont then if is_empty s.recv_queue then (false, s) else rest else (queued, s)

unfoldable pub wait_recv : Io → Session → Session
unfolding wait_recv_loop
wait_recv io s = (wait_recv_loop 1 io false s).1

-- `usbws_session_close`: every entry is taken out of the queue, and the session discontinued.
unfoldable pub session_close : Session → Session
session_close s = discontinue (record s { recv_queue = [] })

-- The variables of `usbws_recv` during one round of its inner loop; `dbuf` holds the bytes that
-- the copies have put at the front of the caller's buffer, so that `dbuf + total` is its end.
pub record Pass : Type 0 where
  pub queue : List (List ℕ)
  pub offset : ℕ
  pub total : ℕ
  pub dbuf : List ℕ

abbrev pub after_pass : Pass → Session → Session
after_pass p s = record s { recv_queue = p.queue; recv_offset = p.offset }

-- The inner loop, from the entry at the head of `queue`. Each copy starts at the first byte of the
-- entry's content, as the source writes it.
unfoldable pub recv_pass : (len : ℕ) → List (List ℕ) → (offset total : ℕ) → List ℕ → Pass
recv_pass len [] offset total dbuf = record {
  queue = [];
  offset = offset;
  total = total;
  dbuf = dbuf;
}
recv_pass len (b ∷ queue) offset total dbuf =
    let skip = recv_pass len queue 0 total dbuf in
    let rem = length b - offset in
    let bytes = if ltb len rem then len else rem in
    let copied = dbuf ++ take bytes b in
    let finished = recv_pass len queue 0 (total + bytes) copied in
    let onward = recv_pass len queue (offset + bytes) (total + bytes) copied in
    if leb (length b) offset
    then skip
    else if leb (length b) (offset + bytes)
    then if leb len (total + bytes)
      then record { queue = queue; offset = 0; total = total + bytes; dbuf = copied }
      else finished
    else if leb len (total + bytes)
    then record { queue = b ∷ queue; offset = offset + bytes; total = total + bytes; dbuf = copied }
    else record onward { queue = b ∷ onward.queue }

-- What the other threads did while this one was not under the lock.
abbrev pub Others : Type 0
Others = Session → Session

-- `while (cont && list_empty(recv_queue)) pthread_cond_wait(…)` over the wake-ups to come; `none`
-- when the thread waits and no wake-up is left.
unfoldable pub wait_queue : List Others → Session → Option (Session × List Others)
wait_queue [] s = if s.cont && is_empty s.recv_queue then none else some (s, [])
wait_queue (w ∷ ws) s =
    let woken = wait_queue ws (w s) in
    if s.cont && is_empty s.recv_queue then woken else some (s, w ∷ ws)

-- How a call of `usbws_recv` ends: it returned a number, with the bytes in the buffer; or it waits
-- for ever; or the model ran out of fuel.
pub data Received : Type 0 where
  returned : ℤ → List ℕ → Session → Received
  blocked : Received
  out_of_fuel : Received

-- The other threads may run between the unlock and the next test of `cont`.
abbrev pub interleave : List Others → Session → Session × List Others
interleave [] s = (s, [])
interleave (w ∷ ws) s = (w s, ws)

-- The outer loop of `usbws_recv`. No other thread runs between its test of `cont` and the lock:
-- a step of its own in Session/Arrival.
unfoldable pub recv_loop :
    (fuel : ℕ) → List Others → (len : ℕ) → (all : Bool) → (total : ℕ) → List ℕ → Session → Received
recv_loop zero ws len all total dbuf s = out_of_fuel
recv_loop (suc fuel) ws len all total dbuf s =
    let round : Received = elim (wait_queue ws s) [
      | none ↦ blocked
      | some (s1, ws1) ↦
          let p = recv_pass len s1.recv_queue s1.recv_offset total dbuf in
          let s2 = after_pass p s1 in
          let next = interleave ws1 s2 in
          let again = recv_loop fuel next.1 len all p.total p.dbuf next.0 in
          if not s1.cont
          then returned (negsuc 0) dbuf s1
          else if (not all && ltb 0 p.total) || leb len p.total
          then returned (pos p.total) p.dbuf s2
          else again
    ] in
    if s.cont then round else returned (pos total) dbuf s

-- `usbws_recv`
unfoldable pub recv : List Others → (len : ℕ) → (all : Bool) → Session → Received
recv ws len all s = recv_loop (suc (suc (length ws))) ws len all 0 [] s
