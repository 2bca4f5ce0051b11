-- ===== src/Commands/Listing.antt =====
-- `usbws list`, src/usbws_list.c.
use usbws_lws.Base.{
  ℕ, Bool, true, false, Option, none, some, List, [], ◌∷◌, ◌++◌, ℤ, pos, negsuc, is_true, is_some,
  if◌then◌else◌,
}
use usbws_lws.Util.{Str, Libc}
use usbws_lws.Client.Memory.{Memory}
use usbws_lws.Client.State.{Client, Defaults, client_init}
use usbws_lws.Client.Target.{Platform, set_target, handle_verification}
use usbws_lws.Commands.Calls.{
  LibCall, showed_help, list_local_devices, list_importable_devices, log_calls,
}
use usbws_lws.Commands.Loop.{Step, going, done, options_loop}
use usbws_lws.Commands.Connect.{Exit, leave}

-- `longopts`; `help` is also what `?` does, and `unlisted` is every other value.
pub data ListOpt : Type 0 where
  debug local parsable help unlisted : ListOpt
  flag url proxy key cert verification : Str → ListOpt

-- The static variables but `opt_client`.
pub record ListOptions : Type 0 where
  pub debug : Bool
  pub local : Bool
  pub url : Option Str
  pub proxy : Option Str
  pub parsable : Bool
  pub help : Bool
  pub flags : ℕ

abbrev pub no_list_options : ListOptions
no_list_options = record {
  debug = false;
  local = false;
  url = none;
  proxy = none;
  parsable = false;
  help = false;
  flags = 0;
}

abbrev pub ListState : Type 0
ListState = ListOptions × Client

module _ (with_libusb : Bool) (l : Libc) where
  -- The options that a build with USBIP_WITH_LIBUSB leaves to `default:`.
  abbrev pub remote : ListState → ListState → Step ListState
  remote s t = if with_libusb then done (negsuc 0) s else going t

  unfoldable pub list_option : ListOpt → ListState → Step ListState
  list_option debug (o, c) = going (record o { debug = true }, c)
  list_option (flag arg) (o, c) =
      if with_libusb
      then going (record o { flags = l.to_unsigned_long (l.strtol 16 arg) }, c)
      else done (negsuc 0) (o, c)
  list_option local (o, c) = going (record o { local = true }, c)
  list_option (url arg) (o, c) = remote (o, c) (record o { url = some arg }, c)
  list_option (proxy arg) (o, c) = remote (o, c) (record o { proxy = some arg }, c)
  list_option (key arg) (o, c) = remote (o, c) (o, record c { key = arg })
  list_option (cert arg) (o, c) = remote (o, c) (o, record c { cert = arg })
  list_option (verification arg) (o, c) =
      let (ret, d) = handle_verification arg c in
      if with_libusb
      then done (negsuc 0) (o, c)
      else if is_true ret
      then done (negsuc 0) (o, d)
      else going (o, d)
  list_option parsable (o, c) = going (record o { parsable = true }, c)
  list_option help (o, c) = done (pos 0) (record o { help = true }, c)
  list_option unlisted (o, c) = done (negsuc 0) (o, c)

  unfoldable pub list_required : ListState → ℤ
  list_required (o, c) =
      if o.local
      then pos 0
      else if with_libusb
      then negsuc 0
      else if is_some o.url
      then pos 0
      else negsuc 0

  unfoldable pub list_options : List ListOpt → ListState → ℤ × ListState
  list_options opts s = options_loop list_option list_required opts s

-- What `usbip_list_local_devices` and `usbip_list_importable_devices` return, the second with what
-- it leaves of the client, whose `usbws_client_open` it calls.
pub record ListLibrary : Type 0 where
  pub local_returns : (parsable : Bool) → ℤ
  pub importable_returns : (host port : Str) → Client → ℤ × Client

-- The two branches behind the settings of the log; a URL that is NULL is copied in the second.
unfoldable pub list_local : ListLibrary → ListOptions → Client → Memory → List LibCall → Exit
list_local lib o c m calls =
    leave (if is_true (lib.local_returns o.parsable) then negsuc 0 else pos 0) c m
      (calls ++ list_local_devices o.parsable ∷ [])

unfoldable pub list_remote :
    Platform → ListLibrary → ListOptions → Client → Memory → List LibCall → Exit
list_remote p lib o c m calls = elim o.url [
  | none ↦ none
  | some text ↦ elim (set_target p text o.proxy c m) [
    | none ↦ none
    | some (ret, d, n) ↦
        let (found, e) = lib.importable_returns d.host d.tcp_port_s d in
        if is_true ret
        then leave (negsuc 0) d n calls
        else leave (if is_true found then negsuc 0 else pos 0) e n
            (calls ++ list_importable_devices d.host d.tcp_port_s ∷ [])
  ]
]

unfoldable pub list_command :
    (with_libusb : Bool) → Libc → Defaults → Platform → ListLibrary → List ListOpt → Memory → Exit
list_command with_libusb l defaults p lib opts m =
    let (ret, (o, c)) = list_options with_libusb l opts (no_list_options, client_init defaults) in
    let calls = log_calls with_libusb o.debug o.flags in
    if is_true ret
    then leave (negsuc 0) c m (showed_help ∷ [])
    else if o.help
    then leave (pos 0) c m (showed_help ∷ [])
    else if o.local
    then list_local lib o c m calls
    else if with_libusb
    then leave (pos 0) c m calls
    else list_remote p lib o c m calls
