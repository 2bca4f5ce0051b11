-- ===== src/Commands/Calls.antt =====
-- What the commands do to their surroundings: the calls of the USB/IP library, and the help text.
use usbws_lws.Base.{ℕ, ◌&&◌, Bool, not, Option, List, [], ◌∷◌, ◌==◌, if◌then◌else◌}
use usbws_lws.Util.{Str, LogCall, set_debug}
use usbws_lws.Commands.Dispatch.{Command}

pub data LibCall : Type 0 where
  showed_help : LibCall
  set_log : List LogCall → LibCall
  set_debug_flags : ℕ → LibCall
  call_device : Command → (host port : Str) → (busid : Option Str) → LibCall
  bind_device unbind_device detach_port : Option Str → LibCall
  list_imported_devices : LibCall
  list_local_devices : (parsable : Bool) → LibCall
  list_importable_devices : (host port : Str) → LibCall

-- `usbws_set_debug`, and the debug flags of a build with USBIP_WITH_LIBUSB.
unfoldable pub log_calls : (with_libusb debug : Bool) → (flags : ℕ) → List LibCall
log_calls with_libusb debug flags =
    set_log (set_debug debug)
    ∷ (if with_libusb && not (flags == 0) then set_debug_flags flags ∷ [] else [])

-- The calls that concern a device, and not the log.
abbrev pub device_calls : List LibCall → List LibCall
device_calls [] = []
device_calls (showed_help ∷ calls) = device_calls calls
device_calls (set_log _ ∷ calls) = device_calls calls
device_calls (set_debug_flags _ ∷ calls) = device_calls calls
device_calls (call ∷ calls) = call ∷ device_calls calls
