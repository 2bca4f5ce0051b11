-- ===== src/Daemon/Acts.antt =====
-- What the daemon does to its surroundings, and which of it has to be undone.
use usbws_lws.Base.{ℕ, Bool, true, false, Option, none, some, List, [], ◌∷◌, ◌==◌, ℤ, if◌then◌else◌}
use usbws_lws.Util.{LogCall}
use usbws_lws.Ctx.{CreationInfo}
use usbws_lws.Util.{Str, same_str}

pub data Act : Type 0 where
  showed_help showed_version : Act
  set_log : List LogCall → Act
  set_debug_flags : ℕ → Act
  pid_opened pid_removed : Str → Act
  pid_closed : Act
  driver_opened driver_closed : Act
  daemonized cleared_umask : Act
  context_created : CreationInfo → ℕ → Act
  context_destroyed : ℕ → Act
  set_sigint : Act
  serviced : ℕ → (timeout : ℤ) → Act
  health_checked : ℕ → Act

-- What is held at a point of the run: the stream of the pid file, the file, the driver, a context.
pub record Held : Type 0 where
  pub pid_stream : Bool
  pub pid_file : Option Str
  pub driver : Bool
  pub context : Option ℕ

abbrev pub nothing : Held
nothing = record { pid_stream = false; pid_file = none; driver = false; context = none }

-- One act, `none` where it takes what is held already, or uses or gives back what is not.
abbrev pub replay_act : Act → Held → Option Held
replay_act (pid_opened file) h =
    if h.pid_stream then none else some (record h { pid_stream = true; pid_file = some file })
replay_act pid_closed h = if h.pid_stream then some (record h { pid_stream = false }) else none
replay_act (pid_removed file) h = elim h.pid_file [
  | none ↦ none
  | some f ↦ if same_str f file then some (record h { pid_file = none }) else none
]
replay_act driver_opened h = if h.driver then none else some (record h { driver = true })
replay_act driver_closed h = if h.driver then some (record h { driver = false }) else none
replay_act (context_created _ c) h = elim h.context [
  | none ↦ some (record h { context = some c })
  | some _ ↦ none
]
replay_act (context_destroyed c) h = elim h.context [
  | none ↦ none
  | some d ↦ if d == c then some (record h { context = none }) else none
]
replay_act (serviced c _) h = elim h.context [
  | none ↦ none
  | some d ↦ if d == c then some h else none
]
replay_act (health_checked c) h = elim h.context [
  | none ↦ none
  | some d ↦ if d == c then some h else none
]
replay_act _ h = some h

abbrev pub replay : List Act → Held → Option Held
replay [] h = some h
replay (a ∷ acts) h = elim (replay_act a h) [ none ↦ none | some k ↦ replay acts k ]
