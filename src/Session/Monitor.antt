-- ===== src/Session/Monitor.antt =====
-- The lock and the condition `send_complete`, step by step: the sender that waits in `usbws_send`,
-- and any number of threads that call `usbws_session_discontinue`, which sets its flag before it
-- takes the lock, and `__send_data`, which clears the buffer under the lock at the message's end.
pub mod Early
pub mod Wakeup
pub mod Alone
use usbws_lws.Base.{
  Bool, true, false, ◌&&◌, Option, none, some, List, [], ◌∷◌, ℤ, negsuc, ◌+ℤ◌, if◌then◌else◌,
}
use usbws_lws.Condition.{Instr, locks, unlocks, signals, does, Room, Scheme}

-- Where `usbws_send` is, behind `usbws_request_send`: before the lock; at its test; in
-- `pthread_cond_wait`, where it has released the lock, or on its way out of it, after a signal or of
-- itself; with the lock to release; behind it, where it reads `cont` once more; or at the caller.
pub data SenderAt : Type 0 where
  entering testing waiting woken leaving reading : SenderAt
  answered : ℤ → SenderAt

-- What the other threads change: the flag, the offset, and the buffer.
pub data Change : Type 0 where
  flags empties : Change
  advances : (sent : ℤ) → Change

-- `usbws_session_discontinue`; and `__send_data` behind `lws_write`, for a part of the message and
-- for its end.
pub data Job : Type 0 where
  discontinuing : Job
  sending ending : (sent : ℤ) → Job

-- `cont`, whether `send_buf` is set, and `send_offset`.
pub record Outbox : Type 0 where
  pub cont : Bool
  pub pending : Bool
  pub send_offset : ℤ

abbrev pub Monitor : Type 0
Monitor = Room Outbox Change Job SenderAt

-- Its other half, on the lock of the queue, does not touch this one.
unfoldable pub flag_instrs : List (Instr Change)
flag_instrs = does flags ∷ locks ∷ signals ∷ unlocks ∷ []

unfoldable pub end_instrs : (sent : ℤ) → List (Instr Change)
end_instrs sent = does (advances sent) ∷ locks ∷ does empties ∷ signals ∷ unlocks ∷ []

unfoldable pub job_instrs : Job → List (Instr Change)
unfolding flag_instrs end_instrs
job_instrs discontinuing = flag_instrs
job_instrs (sending sent) = does (advances sent) ∷ []
job_instrs (ending sent) = end_instrs sent

unfoldable pub change : Change → Outbox → Outbox
change flags b = record b { cont = false }
change empties b = record b { pending = false }
change (advances sent) b = record b { send_offset = b.send_offset +ℤ sent }

-- `pthread_cond_signal`
abbrev pub awake : SenderAt → SenderAt
awake waiting = woken
awake at = at

abbrev pub is_waiting : SenderAt → Bool
is_waiting waiting = true
is_waiting _ = false

-- What `usbws_send` returns behind its wait.
abbrev pub result : Outbox → ℤ
result b = if b.cont then b.send_offset else negsuc 0

-- The next step of the sender, which tests and waits in one, as `pthread_cond_wait` releases the
-- lock; `none` where it has to wait for the lock or a signal, or has returned.
unfoldable pub sender_step : Monitor → Option Monitor
sender_step m = elim m.at [
  | entering ↦ if m.locked then none else some (record m { locked = true; at = testing })
  | testing ↦
      if m.shared.cont && m.shared.pending
      then some (record m { locked = false; at = waiting })
      else some (record m { at = leaving })
  | waiting ↦ none
  | woken ↦ if m.locked then none else some (record m { locked = true; at = testing })
  | leaving ↦ some (record m { locked = false; at = reading })
  | reading ↦ some (record m { at = answered (result m.shared) })
  | answered r ↦ none
]

abbrev pub monitor : Scheme Outbox Change Job SenderAt
monitor = record {
  instrs = job_instrs;
  effect = change;
  wake = awake;
  is_waiting = is_waiting;
  step = sender_step;
}

-- Behind `usbws_request_send`, of a message of which nothing or a part has been sent.
abbrev pub outbox : ℤ → Outbox
outbox send_offset = record { cont = true; pending = true; send_offset = send_offset }
