-- ===== src/Session/Arrival.antt =====
-- The lock and the condition of `recv_queue`, step by step: `usbws_recv` in one thread, and any
-- number of others that call `usbws_handle_recv`, `usbws_wait_recv`, `usbws_session_discontinue`,
-- which sets its flag before it takes the lock, and `usbws_session_close`.
pub mod Discipline
pub mod Answer
pub mod Settle
pub mod Alone
use usbws_lws.Base.{
  ℕ, Bool, true, false, not, ◌&&◌, ◌||◌, Option, none, some, List, [], ◌∷◌, ◌++◌, ℤ, pos, negsuc,
  ltb, leb, if◌then◌else◌,
}
use usbws_lws.Condition.{Instr, locks, unlocks, signals, does, Room, Scheme}
use usbws_lws.Session.Recv.{is_empty, recv_pass}

-- Where `usbws_recv` is: at the test of its outer loop, before the lock, at the test of its inner
-- one, in `pthread_cond_wait`, where it has released the lock, or on its way out of it, after a
-- signal or of itself; at the test behind it; with the lock to release for the answer -1 or after a
-- pass over the queue; or back at the caller.
pub data ReceiverAt : Type 0 where
  looping locking testing waiting woken checking failing leaving : ReceiverAt
  answered : ℤ → ReceiverAt

-- What the other threads change: the flag, and the queue.
pub data Change : Type 0 where
  flags clears : Change
  adds : List ℕ → Change

-- The calls of the other threads: `usbws_handle_recv` for a binary frame that finds memory,
-- `usbws_wait_recv` where it tests the queue, `usbws_session_discontinue` and `usbws_session_close`.
pub data Job : Type 0 where
  handling : List ℕ → Job
  looking discontinuing closing : Job

-- `cont`, the queue and its offset, and the variables of `usbws_recv`.
pub record Inbox : Type 0 where
  pub cont : Bool
  pub queue : List (List ℕ)
  pub offset : ℕ
  pub total : ℕ
  pub dbuf : List ℕ

abbrev pub Arrival : Type 0
Arrival = Room Inbox Change Job ReceiverAt

-- Its other half, on the lock of `send_complete`, does not touch this one.
unfoldable pub discontinue_instrs : List (Instr Change)
discontinue_instrs = does flags ∷ locks ∷ signals ∷ unlocks ∷ []

unfoldable pub close_instrs : List (Instr Change)
unfolding discontinue_instrs
close_instrs = locks ∷ does clears ∷ unlocks ∷ discontinue_instrs

unfoldable pub handle_recv_instrs : List ℕ → List (Instr Change)
handle_recv_instrs frame = locks ∷ does (adds frame) ∷ signals ∷ unlocks ∷ []

unfoldable pub wait_recv_instrs : List (Instr Change)
wait_recv_instrs = locks ∷ unlocks ∷ []

unfoldable pub job_instrs : Job → List (Instr Change)
unfolding discontinue_instrs close_instrs handle_recv_instrs wait_recv_instrs
job_instrs (handling frame) = handle_recv_instrs frame
job_instrs looking = wait_recv_instrs
job_instrs discontinuing = discontinue_instrs
job_instrs closing = close_instrs

unfoldable pub change : Change → Inbox → Inbox
change flags b = record b { cont = false }
change clears b = record b { queue = [] }
change (adds frame) b = record b { queue = b.queue ++ frame ∷ [] }

-- `pthread_cond_signal`
abbrev pub awake : ReceiverAt → ReceiverAt
awake waiting = woken
awake at = at

abbrev pub is_waiting : ReceiverAt → Bool
is_waiting waiting = true
is_waiting _ = false

module _ (len : ℕ) (all : Bool) where
  -- The pass over the queue, under the lock.
  abbrev pub pass : Inbox → Inbox
  pass b =
      let p = recv_pass len b.queue b.offset b.total b.dbuf in
      record b { queue = p.queue; offset = p.offset; total = p.total; dbuf = p.dbuf }

  -- Whether the loop ends after a pass.
  abbrev pub is_enough : Inbox → Bool
  is_enough b = (not all && ltb 0 b.total) || leb len b.total

  -- The next step of `usbws_recv`, which tests and waits in one, as `pthread_cond_wait` releases
  -- the lock; `none` where it has to wait for the lock or a signal, or has returned.
  unfoldable pub receiver_step : Arrival → Option Arrival
  receiver_step m =
      let b = m.shared in
      elim m.at [
        | looping ↦ some (record m { at = if b.cont then locking else answered (pos b.total) })
        | locking ↦ if m.locked then none else some (record m { locked = true; at = testing })
        | testing ↦
            if b.cont && is_empty b.queue
            then some (record m { locked = false; at = waiting })
            else some (record m { at = checking })
        | waiting ↦ none
        | woken ↦ if m.locked then none else some (record m { locked = true; at = testing })
        | checking ↦
            if b.cont
            then some (record m { shared = pass b; at = leaving })
            else some (record m { at = failing })
        | failing ↦ some (record m { locked = false; at = answered (negsuc 0) })
        | leaving ↦ some (record m {
          locked = false;
          at = if is_enough b then answered (pos b.total) else looping;
        })
        | answered r ↦ none
      ]

  abbrev pub arrival : Scheme Inbox Change Job ReceiverAt
  arrival = record {
    instrs = job_instrs;
    effect = change;
    wake = awake;
    is_waiting = is_waiting;
    step = receiver_step;
  }

-- Of a session, before a call of `usbws_recv`.
abbrev pub inbox : Bool → List (List ℕ) → ℕ → Inbox
inbox cont queue offset = record {
  cont = cont;
  queue = queue;
  offset = offset;
  total = 0;
  dbuf = [];
}
