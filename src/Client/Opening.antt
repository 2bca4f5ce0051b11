-- ===== src/Client/Opening.antt =====
-- The lock and the condition of a client, step by step: `usbws_client_wait_start` in the thread that
-- opens, and the client's thread, with its callbacks, the signal handler and its end.
pub mod Settle
pub mod Report
pub mod Alone
use usbws_lws.Base.{
  ℕ, Bool, true, false, Option, none, some, List, [], ◌∷◌, ◌++◌, ℤ, pos, negsuc, ltb_ℤ, is_true,
  if◌then◌else◌,
}
use usbws_lws.Condition.{Instr, locks, unlocks, signals, does, Room, Scheme}
use usbws_lws.Ctx.{ctx_stop}
use usbws_lws.Client.State.{Client}
use usbws_lws.Client.Start.{Compiled, thread_end}

-- Where `usbws_client_wait_start` is: before the lock; at its test; in `pthread_cond_wait`, where it
-- has released the lock, or on its way out of it; with the lock to release; behind it, where it
-- reads `started` once more; or back at the caller.
pub data OpenerAt : Type 0 where
  entering testing waiting woken leaving reading : OpenerAt
  answered : ℤ → OpenerAt

-- What is changed in the client: its connection, its context, and `started`.
pub data Deed : Type 0 where
  knows : (wsi : ℕ) → Deed
  forgets stops destroys : Deed
  sets : (val : ℤ) → Deed

-- What runs beside it: the callbacks that start and stop a session, the signal handler, and the end
-- of the client's thread.
pub data Event : Type 0 where
  starting : (wsi : ℕ) → Event
  stopping interrupting finishing : Event

abbrev pub Opening : Type 0
Opening = Room Client Deed Event OpenerAt

-- `__notify_start`
unfoldable pub notify_instrs : ℤ → List (Instr Deed)
notify_instrs val = locks ∷ does (sets val) ∷ signals ∷ unlocks ∷ []

unfoldable pub start_instrs : (wsi : ℕ) → List (Instr Deed)
unfolding notify_instrs
start_instrs wsi = does (knows wsi) ∷ notify_instrs (pos 1)

unfoldable pub stop_instrs : List (Instr Deed)
unfolding notify_instrs
stop_instrs = does forgets ∷ does stops ∷ notify_instrs (negsuc 0)

-- The handler of SIGINT stops the context; the thread's end destroys it.
unfoldable pub event_instrs : Event → List (Instr Deed)
unfolding start_instrs stop_instrs notify_instrs
event_instrs (starting wsi) = start_instrs wsi
event_instrs stopping = stop_instrs
event_instrs interrupting = does stops ∷ []
event_instrs finishing = does destroys ∷ []

-- `pthread_cond_signal`
abbrev pub awake : OpenerAt → OpenerAt
awake waiting = woken
awake at = at

abbrev pub is_waiting : OpenerAt → Bool
is_waiting waiting = true
is_waiting _ = false

-- What `usbws_client_wait_start` makes of `started`.
abbrev pub answer : ℤ → ℤ
answer started = if ltb_ℤ started (pos 0) then negsuc 0 else pos 0

-- The next step of the thread that opens, which tests and waits in one; `none` where it has to wait
-- for the lock or a signal, or has returned.
unfoldable pub opener_step : Opening → Option Opening
opener_step m = elim m.at [
  | entering ↦ if m.locked then none else some (record m { locked = true; at = testing })
  | testing ↦
      if is_true m.shared.started
      then some (record m { at = leaving })
      else some (record m { locked = false; at = waiting })
  | waiting ↦ none
  | woken ↦ if m.locked then none else some (record m { locked = true; at = testing })
  | leaving ↦ some (record m { locked = false; at = reading })
  | reading ↦ some (record m { at = answered (answer m.shared.started) })
  | answered r ↦ none
]

module _ (k : Compiled) where
  unfoldable pub deed : Deed → Client → Client
  deed (knows wsi) c = record c { wsi = some wsi }
  deed forgets c = record c { wsi = none }
  deed stops c = record c { ctx = (ctx_stop c.ctx).0 }
  deed destroys c = (thread_end c).1
  deed (sets val) c = record c { started = k.to_char val }

  abbrev pub opening : Scheme Client Deed Event OpenerAt
  opening = record {
    instrs = event_instrs;
    effect = deed;
    wake = awake;
    is_waiting = is_waiting;
    step = opener_step;
  }
