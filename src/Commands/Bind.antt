-- ===== src/Commands/Bind.antt =====
-- `usbws bind` and `usbws unbind`, src/usbws_bind_kind.c.
use usbws_lws.Base.{
  ℕ, Bool, true, false, Option, none, some, List, [], ◌∷◌, ◌++◌, ℤ, pos, negsuc, is_true, is_some,
  if◌then◌else◌,
}
use usbws_lws.Util.{Str, Libc}
use usbws_lws.Commands.Dispatch.{Command, bind, unbind}
use usbws_lws.Commands.Calls.{LibCall, showed_help, bind_device, unbind_device, log_calls}
use usbws_lws.Commands.Loop.{Step, going, done, options_loop}

-- `longopts`; `help` is also what `?` does, and `unlisted` is every other value.
pub data BindOpt : Type 0 where
  debug help unlisted : BindOpt
  flag bus_id : Str → BindOpt

-- The static variables.
pub record BindOptions : Type 0 where
  pub debug : Bool
  pub busid : Option Str
  pub help : Bool
  pub flags : ℕ

abbrev pub no_bind_options : BindOptions
no_bind_options = record { debug = false; busid = none; help = false; flags = 0 }

module _ (with_libusb : Bool) (l : Libc) where
  unfoldable pub bind_option : BindOpt → BindOptions → Step BindOptions
  bind_option debug o = going (record o { debug = true })
  bind_option (flag arg) o =
      if with_libusb
      then going (record o { flags = l.to_unsigned_long (l.strtol 16 arg) })
      else done (negsuc 0) o
  bind_option (bus_id arg) o = going (record o { busid = some arg })
  bind_option help o = done (pos 0) (record o { help = true })
  bind_option unlisted o = done (negsuc 0) o

  abbrev pub bind_required : BindOptions → ℤ
  bind_required o = if is_some o.busid then pos 0 else negsuc 0

  unfoldable pub bind_options : List BindOpt → BindOptions → ℤ × BindOptions
  bind_options opts o = options_loop bind_option bind_required opts o

-- What `usbip_bind_device` and `usbip_unbind_device` return.
pub record BindLibrary : Type 0 where
  pub bind_returns : Option Str → ℤ
  pub unbind_returns : Option Str → ℤ

-- The `switch` of the command.
unfoldable pub bind_call : BindLibrary → Command → Option Str → ℤ × List LibCall
bind_call lib bind busid = (lib.bind_returns busid, bind_device busid ∷ [])
bind_call lib unbind busid = (lib.unbind_returns busid, unbind_device busid ∷ [])
bind_call lib _ busid = (negsuc 0, [])

unfoldable pub bind_kind :
    (with_libusb : Bool) → Libc → BindLibrary → List BindOpt → Command → ℤ × List LibCall
bind_kind with_libusb l lib opts cmd =
    let (ret, o) = bind_options with_libusb l opts no_bind_options in
    if is_true ret
    then (negsuc 0, showed_help ∷ [])
    else if o.help
    then (pos 0, showed_help ∷ [])
    else (
      (bind_call lib cmd o.busid).0,
      log_calls with_libusb o.debug o.flags ++ (bind_call lib cmd o.busid).1,
    )
