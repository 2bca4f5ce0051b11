-- ===== src/Commands/Run.antt =====
-- `main` of src/usbws.c with the procedures of its commands.
pub mod Once
pub mod Status
use usbws_lws.Base.{Bool, Option, none, some, List, [], ◌∷◌, ℤ, pos, negsuc}
use usbws_lws.Util.{Str, Libc}
use usbws_lws.Client.Memory.{Memory}
use usbws_lws.Client.State.{Defaults}
use usbws_lws.Client.Target.{Platform}
use usbws_lws.Commands.Dispatch.{
  Command, connect, disconnect, attach, detach, port, list, bind, unbind, help, version, error,
  usbws_main,
}
use usbws_lws.Commands.Calls.{LibCall, showed_help}
use usbws_lws.Commands.Options.{ConnectOpt}
use usbws_lws.Commands.Connect.{Device, Exit, connect_kind}
use usbws_lws.Commands.Listing.{ListOpt, ListLibrary, list_command}
use usbws_lws.Commands.Bind.{BindOpt, BindLibrary, bind_kind}
use usbws_lws.Commands.Detach.{DetachOpt, detach_command}
use usbws_lws.Commands.Port.{PortOpt, port_command}

-- The build, the libraries, and the options that `getopt_long` finds for each command.
pub record World : Type 0 where
  pub with_libusb : Bool
  pub libc : Libc
  pub defaults : Defaults
  pub platform : Platform
  pub device : Device
  pub list_library : ListLibrary
  pub bind_library : BindLibrary
  pub detach_returns : Option Str → ℤ
  pub port_returns : ℤ
  pub connect_opts : List ConnectOpt
  pub list_opts : List ListOpt
  pub bind_opts : List BindOpt
  pub detach_opts : List DetachOpt
  pub port_opts : List PortOpt

-- Of a command that takes no memory.
abbrev pub exit_with : Memory → ℤ × List LibCall → Exit
exit_with m (ret, calls) = some (ret, m, calls)

-- The procedure of a command. The entry that ends the table has none; the version is a message.
unfoldable pub run_command : World → Memory → Command → Exit
run_command w m connect =
    connect_kind w.with_libusb w.libc w.defaults w.platform w.device w.connect_opts connect m
run_command w m disconnect =
    connect_kind w.with_libusb w.libc w.defaults w.platform w.device w.connect_opts disconnect m
run_command w m attach =
    connect_kind w.with_libusb w.libc w.defaults w.platform w.device w.connect_opts attach m
run_command w m detach =
    exit_with m (detach_command w.with_libusb w.libc w.detach_returns w.detach_opts)
run_command w m port = exit_with m (port_command w.with_libusb w.libc w.port_returns w.port_opts)
run_command w m list =
    list_command w.with_libusb w.libc w.defaults w.platform w.list_library w.list_opts m
run_command w m bind = exit_with m (bind_kind w.with_libusb w.libc w.bind_library w.bind_opts bind)
run_command w m unbind =
    exit_with m (bind_kind w.with_libusb w.libc w.bind_library w.bind_opts unbind)
run_command w m help = some (pos 0, m, showed_help ∷ [])
run_command w m version = some (pos 0, m, [])
run_command w m error = none

abbrev pub returned : Exit → ℤ
returned none = negsuc 0
returned (some (ret, _, _)) = ret

-- The usage is printed for an argument that names no command.
abbrev pub usage_calls : (argv : List Str) → List LibCall
usage_calls (program ∷ name ∷ argv) = showed_help ∷ []
usage_calls _ = []

-- `main`: the exit status, the memory and the calls; `none` is an access that C does not define.
unfoldable pub usbws : World → Memory → (argv : List Str) → Exit
usbws w m argv =
    let (status, ran) = usbws_main w.with_libusb (λ cmd. returned (run_command w m cmd)) argv in
    elim ran [
      | none ↦ some (status, m, usage_calls argv)
      | some cmd ↦ elim (run_command w m cmd) [
        | none ↦ none
        | some (ret, n, calls) ↦ some (status, n, calls)
      ]
    ]
