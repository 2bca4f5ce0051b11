-- ===== src/Commands/Serves.antt =====
-- What `usbws bind` and `usbws unbind` do with options of which none ends their loop.
use usbws_lws.Base.{
  ◌≡◌, refl, Bool, true, false, Option, none, some, List, [], ◌∷◌, ◌++◌, arith, ℤ, pos, negsuc,
  Option-cases, inl, inr, is_some, if◌then◌else◌, ℕ,
}
use usbws_lws.Util.{Str, Libc}
use usbws_lws.Commands.Dispatch.{bind, unbind, Command}
use usbws_lws.Commands.Calls.{bind_device, unbind_device, LibCall, log_calls, device_calls}
use usbws_lws.Commands.Loop.{going, options_loop_plain, apply_all, all}
use usbws_lws.Commands.Bind.{
  BindOpt, BindOptions, no_bind_options, bind_option, bind_required, bind_options, BindLibrary,
  bind_call, bind_kind,
}

pub device_calls-log_calls :
    (with_libusb debug : Bool) (flags : ℕ) (calls : List LibCall)
    → device_calls (log_calls with_libusb debug flags ++ calls) ≡ device_calls calls
unfolding log_calls
device_calls-log_calls with_libusb debug flags calls = ground arith

module _ (with_libusb : Bool) (l : Libc) where
  -- An option of `usbws bind` after which the loop goes on.
  abbrev pub is_setting : BindOpt → Bool
  is_setting BindOpt.debug = true
  is_setting (BindOpt.flag arg) = with_libusb
  is_setting (BindOpt.bus_id arg) = true
  is_setting BindOpt.help = false
  is_setting BindOpt.unlisted = false

  bind_apply : BindOpt → BindOptions → BindOptions
  bind_apply BindOpt.debug o = record o { debug = true }
  bind_apply (BindOpt.flag arg) o = record o { flags = l.to_unsigned_long (l.strtol 16 arg) }
  bind_apply (BindOpt.bus_id arg) o = record o { busid = some arg }
  bind_apply BindOpt.help o = o
  bind_apply BindOpt.unlisted o = o

  bind_option-bind_apply :
      (opt : BindOpt) (o : BindOptions)
      → is_setting opt ≡ true
      → bind_option with_libusb l opt o ≡ going (bind_apply opt o)
  unfolding bind_option bind_apply
  bind_option-bind_apply BindOpt.debug o e = refl
  bind_option-bind_apply (BindOpt.flag arg) o e = ground arith
  bind_option-bind_apply (BindOpt.bus_id arg) o e = refl
  bind_option-bind_apply BindOpt.help o e = cc
  bind_option-bind_apply BindOpt.unlisted o e = cc

-- The last bus id of the options, or `first` where there is none.
abbrev pub last_bus_id : List BindOpt → Option Str → Option Str
last_bus_id [] first = first
last_bus_id (BindOpt.bus_id arg ∷ opts) first = last_bus_id opts (some arg)
last_bus_id (_ ∷ opts) first = last_bus_id opts first

bind_apply-last :
    (with_libusb : Bool) (l : Libc) (opts : List BindOpt) (o : BindOptions)
    → let t = apply_all (bind_apply with_libusb l) opts o in
      (t.busid ≡ last_bus_id opts o.busid) × (t.help ≡ o.help)
unfolding bind_apply
bind_apply-last with_libusb l [] o = (refl, refl)
bind_apply-last with_libusb l (BindOpt.debug ∷ opts) o = bind_apply-last with_libusb l opts _
bind_apply-last with_libusb l (BindOpt.flag arg ∷ opts) o = bind_apply-last with_libusb l opts _
bind_apply-last with_libusb l (BindOpt.bus_id arg ∷ opts) o = bind_apply-last with_libusb l opts _
bind_apply-last with_libusb l (BindOpt.help ∷ opts) o = bind_apply-last with_libusb l opts _
bind_apply-last with_libusb l (BindOpt.unlisted ∷ opts) o = bind_apply-last with_libusb l opts _

bind_options_lem :
    (with_libusb : Bool) (l : Libc) (opts : List BindOpt) (o : BindOptions)
    → all (is_setting with_libusb l) opts ≡ true
    → bind_options with_libusb l opts o ≡ (
      if is_some (apply_all (bind_apply with_libusb l) opts o).busid then pos 0 else negsuc 0,
      apply_all (bind_apply with_libusb l) opts o,
    )
unfolding bind_options
bind_options_lem with_libusb l opts o plain =
    options_loop_plain (bind_option with_libusb l) (bind_required with_libusb l)
      (is_setting with_libusb l) (bind_apply with_libusb l) (bind_option-bind_apply with_libusb l)
      opts o plain

-- What a command is to do for a bus id: without one it fails and calls nothing.
abbrev pub bind_answer : BindLibrary → Command → Option Str → ℤ × List LibCall
bind_answer lib cmd none = (negsuc 0, [])
bind_answer lib bind (some busid) = (lib.bind_returns (some busid), bind_device (some busid) ∷ [])
bind_answer lib unbind (some busid) =
    (lib.unbind_returns (some busid), unbind_device (some busid) ∷ [])
bind_answer lib _ (some busid) = (negsuc 0, [])

bind_call-bind_answer :
    (lib : BindLibrary) (cmd : Command) (busid : Str)
    → (bind_call lib cmd (some busid) ≡ bind_answer lib cmd (some busid))
      × (device_calls (bind_answer lib cmd (some busid)).1 ≡ (bind_answer lib cmd (some busid)).1)
unfolding bind_call
bind_call-bind_answer lib cmd busid = ground arith

-- Whatever options that do not end the loop are given, and however often: `usbws_bind_kind` makes
-- the one call of the USB/IP library that its command names, for the last bus id, and returns what
-- the call returns; without a bus id, or for a command other than `bind` and `unbind`, it makes no
-- such call and returns -1.
pub bind_kind_serves :
    (with_libusb : Bool) (l : Libc) (lib : BindLibrary) (opts : List BindOpt) (cmd : Command)
    → all (is_setting with_libusb l) opts ≡ true
    → let (ret, calls) = bind_kind with_libusb l lib opts cmd in
      (ret ≡ (bind_answer lib cmd (last_bus_id opts none)).0)
      × (device_calls calls ≡ (bind_answer lib cmd (last_bus_id opts none)).1)
unfolding bind_kind
bind_kind_serves with_libusb l lib opts cmd plain =
    rw (bind_options_lem with_libusb l opts no_bind_options plain) (elim (Option-cases t.busid) [
      | inl missing ↦ ground (arith, bind_apply-last with_libusb l opts no_bind_options)
      | inr (busid, given) ↦ ground (
        arith,
        bind_apply-last with_libusb l opts no_bind_options,
        device_calls-log_calls with_libusb t.debug t.flags (bind_call lib cmd t.busid).1,
        bind_call-bind_answer lib cmd busid,
      )
    ])
  where
    t : BindOptions
    t = apply_all (bind_apply with_libusb l) opts no_bind_options
