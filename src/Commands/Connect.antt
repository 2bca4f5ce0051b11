-- ===== src/Commands/Connect.antt =====
-- `usbws_connect_kind` of src/usbws_connect_kind.c, with the memory of the client's blocks.
use usbws_lws.Base.{
  Bool, true, false, Option, none, some, List, [], ◌∷◌, ◌++◌, ℤ, pos, negsuc, is_true,
  if◌then◌else◌,
}
use usbws_lws.Util.{Str, Libc}
use usbws_lws.Client.Memory.{Memory}
use usbws_lws.Client.State.{Client, Defaults, client_init}
use usbws_lws.Client.Target.{Platform, client_free, set_target}
use usbws_lws.Commands.Dispatch.{Command, connect, disconnect, attach}
use usbws_lws.Commands.Calls.{LibCall, showed_help, call_device, log_calls}
use usbws_lws.Commands.Options.{ConnectOpt, ConnectOptions, no_options, connect_options}

-- What the USB/IP library's `usbip_connect_device` and its two fellows return for a host, a port
-- and a bus id, and what they leave of the client, whose `usbws_client_open` they call.
abbrev pub Device : Type 0
Device = Command → Str → Str → Option Str → Client → ℤ × Client

-- What a command returns, with the memory and the calls; `none` is an access that C does not define.
abbrev pub Exit : Type 0
Exit = Option (ℤ × Memory × List LibCall)

-- `out` and `err_out`
abbrev pub leave : ℤ → Client → Memory → List LibCall → Exit
leave ret c m calls = elim (client_free c m) [ none ↦ none | some n ↦ some (ret, n, calls) ]

-- The commands of the `switch`, by the build.
unfoldable pub has_device : (with_libusb : Bool) → Command → Bool
has_device with_libusb connect = true
has_device with_libusb disconnect = true
has_device with_libusb attach = if with_libusb then false else true
has_device with_libusb _ = false

unfoldable pub run_device :
    (with_libusb : Bool) → Device → Command → ConnectOptions → Client → Memory → List LibCall → Exit
run_device with_libusb device cmd o c m calls =
    let (ret, d) = device cmd c.host c.tcp_port_s o.busid c in
    if has_device with_libusb cmd
    then leave (if is_true ret then negsuc 0 else pos 0) d m
        (calls ++ call_device cmd c.host c.tcp_port_s o.busid ∷ [])
    else leave (negsuc 0) c m calls

-- From the target on; a URL that is NULL is copied from there.
unfoldable pub run_target :
    (with_libusb : Bool)
    → Platform
    → Device
    → Command
    → ConnectOptions
    → Client
    → Memory
    → List LibCall
    → Exit
run_target with_libusb p device cmd o c m calls = elim o.url [
  | none ↦ none
  | some url ↦ elim (set_target p url o.proxy c m) [
    | none ↦ none
    | some (ret, d, n) ↦
        if is_true ret
        then leave (negsuc 0) d n calls
        else run_device with_libusb device cmd o d n calls
  ]
]

unfoldable pub connect_kind :
    (with_libusb : Bool)
    → Libc
    → Defaults
    → Platform
    → Device
    → List ConnectOpt
    → Command
    → Memory
    → Exit
connect_kind with_libusb l defaults p device opts cmd m =
    let (ret, o, c) = connect_options with_libusb l opts (no_options, client_init defaults) in
    if is_true ret
    then leave (negsuc 0) c m (showed_help ∷ [])
    else if o.help
    then leave (pos 0) c m (showed_help ∷ [])
    else run_target with_libusb p device cmd o c m (log_calls with_libusb o.debug o.flags)
