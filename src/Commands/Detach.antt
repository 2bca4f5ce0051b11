-- ===== src/Commands/Detach.antt =====
-- `usbws detach`, src/usbws_detach.c.
use usbws_lws.Base.{
  ℕ, Bool, true, false, Option, none, some, List, [], ◌∷◌, ◌++◌, ℤ, pos, negsuc, is_true, is_some,
  if◌then◌else◌,
}
use usbws_lws.Util.{Str, Libc}
use usbws_lws.Commands.Calls.{LibCall, showed_help, detach_port, log_calls}
use usbws_lws.Commands.Loop.{Step, going, done, options_loop}

pub data DetachOpt : Type 0 where
  debug help unlisted : DetachOpt
  flag port : Str → DetachOpt

pub record DetachOptions : Type 0 where
  pub debug : Bool
  pub port : Option Str
  pub help : Bool
  pub flags : ℕ

abbrev pub no_detach_options : DetachOptions
no_detach_options = record { debug = false; port = none; help = false; flags = 0 }

module _ (with_libusb : Bool) (l : Libc) where
  unfoldable pub detach_option : DetachOpt → DetachOptions → Step DetachOptions
  detach_option debug o = going (record o { debug = true })
  detach_option (flag arg) o =
      if with_libusb
      then going (record o { flags = l.to_unsigned_long (l.strtol 16 arg) })
      else done (negsuc 0) o
  detach_option (port arg) o = going (record o { port = some arg })
  detach_option help o = done (pos 0) (record o { help = true })
  detach_option unlisted o = done (negsuc 0) o

  abbrev pub detach_required : DetachOptions → ℤ
  detach_required o = if is_some o.port then pos 0 else negsuc 0

  unfoldable pub detach_options : List DetachOpt → DetachOptions → ℤ × DetachOptions
  detach_options opts o = options_loop detach_option detach_required opts o

-- `returns` is what `usbip_detach_port` returns for a port.
unfoldable pub detach_command :
    (with_libusb : Bool) → Libc → (returns : Option Str → ℤ) → List DetachOpt → ℤ × List LibCall
detach_command with_libusb l returns opts =
    let (ret, o) = detach_options with_libusb l opts no_detach_options in
    if is_true ret
    then (negsuc 0, showed_help ∷ [])
    else if o.help
    then (pos 0, showed_help ∷ [])
    else (returns o.port, log_calls with_libusb o.debug o.flags ++ detach_port o.port ∷ [])
