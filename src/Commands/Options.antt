-- ===== src/Commands/Options.antt =====
-- The options of `usbws connect`, `disconnect` and `attach`.
use usbws_lws.Base.{
  ℕ, Bool, true, false, Option, none, some, List, [], ◌∷◌, ℤ, pos, negsuc, is_true, is_some,
  if◌then◌else◌,
}
use usbws_lws.Ctx.{set_ping_pong}
use usbws_lws.Util.{Str, Libc}
use usbws_lws.Client.State.{Client}
use usbws_lws.Client.Target.{handle_verification}

-- `longopts`; `help` is also what `?` does, and `unlisted` is every other value.
pub data ConnectOpt : Type 0 where
  debug help unlisted : ConnectOpt
  flag url proxy bus_id interval key cert verification : Str → ConnectOpt

-- The static variables but `opt_client`.
pub record ConnectOptions : Type 0 where
  pub debug : Bool
  pub flags : ℕ
  pub url : Option Str
  pub proxy : Option Str
  pub busid : Option Str
  pub help : Bool

abbrev pub no_options : ConnectOptions
no_options = record {
  debug = false;
  flags = 0;
  url = none;
  proxy = none;
  busid = none;
  help = false;
}

abbrev pub State : Type 0
State = ConnectOptions × Client

-- One turn of the loop goes on with a state, or returns from the function.
abbrev pub Turn : Type 0
Turn = Option ℤ × ConnectOptions × Client

module _ (with_libusb : Bool) (c : Libc) where
  unfoldable pub connect_option : ConnectOpt → State → Turn
  connect_option debug (o, x) = (none, record o { debug = true }, x)
  connect_option (flag arg) (o, x) =
      if with_libusb
      then (none, record o { flags = c.to_unsigned_long (c.strtol 16 arg) }, x)
      else (some (negsuc 0), o, x)
  connect_option (url arg) (o, x) = (none, record o { url = some arg }, x)
  connect_option (proxy arg) (o, x) = (none, record o { proxy = some arg }, x)
  connect_option (bus_id arg) (o, x) = (none, record o { busid = some arg }, x)
  connect_option (interval arg) (o, x) =
      (none, o, record x { ctx = set_ping_pong (c.to_int (c.strtol 10 arg)) x.ctx })
  connect_option (key arg) (o, x) = (none, o, record x { key = arg })
  connect_option (cert arg) (o, x) = (none, o, record x { cert = arg })
  connect_option (verification arg) (o, x) =
      let (ret, y) = handle_verification arg x in
      if is_true ret then (some (negsuc 0), o, y) else (none, o, y)
  connect_option help (o, x) = (some (pos 0), record o { help = true }, x)
  connect_option unlisted (o, x) = (some (negsuc 0), o, x)

  -- The two tests behind the loop.
  abbrev pub required : ConnectOptions → ℤ
  required o = if is_some o.url then if is_some o.busid then pos 0 else negsuc 0 else negsuc 0

  unfoldable pub connect_options : List ConnectOpt → State → ℤ × ConnectOptions × Client
  connect_options [] (o, x) = (required o, o, x)
  connect_options (opt ∷ opts) s =
      let (stop, o, x) = connect_option opt s in
      let rest = connect_options opts (o, x) in elim stop [ none ↦ rest | some ret ↦ (ret, o, x) ]
