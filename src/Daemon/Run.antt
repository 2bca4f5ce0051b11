-- ===== src/Daemon/Run.antt =====
-- `main` of the daemon, and the pid file.
use usbws_lws.Base.{
  ℕ, ◌&&◌, Bool, false, not, Option, none, some, List, [], ◌∷◌, ◌++◌, ℤ, pos, negsuc, ltb_ℤ,
  is_true, ◌==◌, if◌then◌else◌,
}
use usbws_lws.Ctx.{Ctx, ctx_init}
use usbws_lws.Util.{set_debug, use_syslog}
use usbws_lws.Daemon.Options.{Opt, Build, Options, default_options, handle_options}
use usbws_lws.Util.{Libc}
use usbws_lws.Util.{Str}
use usbws_lws.Daemon.Acts
use usbws_lws.Daemon.Acts.{Act}
use usbws_lws.Daemon.Service.{Served, service}
use usbws_lws.Daemon.Hooks.{Hook, start_session, stop_session}

-- What the platform answers to the calls of one run.
pub record Answers : Type 0 where
  pub fopen_succeeds : Bool
  pub fprintf_returns : ℤ
  pub driver_open_returns : ℤ
  pub daemon_returns : ℤ
  pub times1000 : ℤ → ℤ
  pub created : Option ℕ
  pub turns : List Served

abbrev pub zeroed : Ctx Hook
zeroed = record { cont = false; ping_pong = pos 0; context = none; start = none; stop = none }

unfoldable pub create_pid_file : Answers → Str → ℤ × List Act
create_pid_file a file =
    if a.fopen_succeeds
    then if ltb_ℤ a.fprintf_returns (pos 1)
      then (negsuc 0, Acts.pid_opened file ∷ Acts.pid_closed ∷ [])
      else (pos 0, Acts.pid_opened file ∷ Acts.pid_closed ∷ [])
    else (negsuc 0, [])

unfoldable pub remove_pid_file : Option Str → List Act
remove_pid_file none = []
remove_pid_file (some file) = Acts.pid_removed file ∷ []

abbrev pub open_pid_file : Answers → Option Str → ℤ × List Act
open_pid_file a none = (pos 0, [])
open_pid_file a (some file) = create_pid_file a file

-- From the opened driver on; `none` while the service goes on.
unfoldable pub run_service : Build → Answers → Options → Ctx Hook → Option (ℤ × List Act)
run_service b a o x =
    let detached =
      if b.on_unix && o.daemonize
      then Acts.daemonized ∷ Acts.cleared_umask ∷ Acts.set_log (use_syslog ∷ []) ∷ []
      else [] in
    if b.on_unix && o.daemonize && ltb_ℤ a.daemon_returns (pos 0)
    then some (negsuc 0, Acts.driver_closed ∷ remove_pid_file o.pid_file)
    else elim (service a.times1000 a.created a.turns o x) [
      | none ↦ none
      | some (_, _, acts) ↦
          some (pos 0, detached ++ acts ++ Acts.driver_closed ∷ remove_pid_file o.pid_file)
    ]

-- From the pid file on.
unfoldable pub run_driver : Build → Answers → Options → Ctx Hook → Option (ℤ × List Act)
run_driver b a o x =
    let pid = open_pid_file a o.pid_file in
    if is_true pid.0
    then some (negsuc 0, pid.1)
    else if is_true a.driver_open_returns
    then some (negsuc 0, pid.1 ++ remove_pid_file o.pid_file)
    else elim (run_service b a o x) [
      | none ↦ none
      | some (ret, acts) ↦ some (ret, pid.1 ++ Acts.driver_opened ∷ acts)
    ]

abbrev pub log_acts : Build → Options → List Act
log_acts b o =
    Acts.set_log (set_debug o.debug)
    ∷ (if b.with_libusb && not (o.flags == 0) then Acts.set_debug_flags o.flags ∷ [] else [])

-- `main`: what it returns and has done, `none` while the service goes on.
unfoldable pub main : Build → Libc → Answers → List Opt → Option (ℤ × List Act)
main b c a opts =
    let x0 = ctx_init zeroed start_session stop_session in
    let (ret, o, x) = handle_options b c opts (default_options b, x0) in
    if is_true ret
    then some (pos 0, Acts.showed_help ∷ [])
    else if o.help
    then some (pos 0, Acts.showed_help ∷ [])
    else if o.version
    then some (pos 0, Acts.showed_version ∷ [])
    else elim (run_driver b a o x) [ none ↦ none | some (r, acts) ↦ some (r, log_acts b o ++ acts) ]
