-- ===== src/Commands/Port.antt =====
-- `usbws port`, src/usbws_port.c.
use usbws_lws.Base.{
  ℕ, Bool, true, false, List, [], ◌∷◌, ◌++◌, ℤ, pos, negsuc, is_true, if◌then◌else◌,
}
use usbws_lws.Util.{Str, Libc}
use usbws_lws.Commands.Calls.{LibCall, showed_help, list_imported_devices, log_calls}
use usbws_lws.Commands.Loop.{Step, going, done, options_loop}

pub data PortOpt : Type 0 where
  debug help unlisted : PortOpt
  flag : Str → PortOpt

pub record PortOptions : Type 0 where
  pub debug : Bool
  pub help : Bool
  pub flags : ℕ

abbrev pub no_port_options : PortOptions
no_port_options = record { debug = false; help = false; flags = 0 }

module _ (with_libusb : Bool) (l : Libc) where
  unfoldable pub port_option : PortOpt → PortOptions → Step PortOptions
  port_option debug o = going (record o { debug = true })
  port_option (flag arg) o =
      if with_libusb
      then going (record o { flags = l.to_unsigned_long (l.strtol 16 arg) })
      else done (negsuc 0) o
  port_option help o = done (pos 0) (record o { help = true })
  port_option unlisted o = done (negsuc 0) o

  unfoldable pub port_options : List PortOpt → PortOptions → ℤ × PortOptions
  port_options opts o = options_loop port_option (λ t. pos 0) opts o

-- `returns` is what `usbip_list_imported_devices` returns.
unfoldable pub port_command :
    (with_libusb : Bool) → Libc → (returns : ℤ) → List PortOpt → ℤ × List LibCall
port_command with_libusb l returns opts =
    let (ret, o) = port_options with_libusb l opts no_port_options in
    if is_true ret
    then (negsuc 0, showed_help ∷ [])
    else if o.help
    then (pos 0, showed_help ∷ [])
    else (returns, log_calls with_libusb o.debug o.flags ++ list_imported_devices ∷ [])
