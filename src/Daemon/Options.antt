-- ===== src/Daemon/Options.antt =====
-- The options of the daemon. What `getopt_long` returns, up to its -1, is a list of `Opt`, with
-- `optarg` where the table requires or allows one.
use usbws_lws.Base.{ℕ, Bool, true, false, Option, none, some, List, [], ◌∷◌, ℤ, pos, negsuc}
use usbws_lws.Ctx.{Ctx, set_ping_pong}
use usbws_lws.Util.{Str, Libc}

-- `longopts`; `help` is also what `?` does, and `unlisted` is every other value.
pub data Opt : Type 0 where
  daemon debug ssl help version : Opt
  flag : Str → Opt
  pid : Option Str → Opt
  tcp_port path interval key cert : Str → Opt
  unlisted : Opt

-- What the build sets: USBIP_WITH_LIBUSB, `__unix__` and the default files.
pub record Build : Type 0 where
  pub with_libusb : Bool
  pub on_unix : Bool
  pub default_pid_file : Option Str
  pub default_path : Str
  pub default_key_file : Str
  pub default_cert_file : Str

-- The static variables.
pub record Options : Type 0 where
  pub daemonize : Bool
  pub debug : Bool
  pub flags : ℕ
  pub tcp_port : ℤ
  pub path : Str
  pub ssl : Bool
  pub pid_file : Option Str
  pub key_file : Str
  pub cert_file : Str
  pub help : Bool
  pub version : Bool

unfoldable pub default_options : Build → Options
default_options b = record {
  daemonize = false;
  debug = false;
  flags = 0;
  tcp_port = pos 0;
  path = b.default_path;
  ssl = false;
  pid_file = none;
  key_file = b.default_key_file;
  cert_file = b.default_cert_file;
  help = false;
  version = false;
}

-- One turn of the loop goes on, or returns from the function.
pub data Parsed (S : Type 0) : Type 0 where
  going : S → Parsed S
  done : ℤ → S → Parsed S

module _ {Hook : Type 0} (b : Build) (c : Libc) where
  unfoldable pub handle_option : Opt → Options × Ctx Hook → Parsed (Options × Ctx Hook)
  handle_option daemon (o, x) = going (record o { daemonize = true }, x)
  handle_option debug (o, x) = going (record o { debug = true }, x)
  handle_option (flag arg) (o, x) = elim b.with_libusb [
    | true ↦ going (record o { flags = c.to_unsigned_long (c.strtol 16 arg) }, x)
    | false ↦ done (negsuc 0) (o, x)
  ]
  handle_option (pid (some arg)) (o, x) = going (record o { pid_file = some arg }, x)
  handle_option (pid none) (o, x) = going (record o { pid_file = b.default_pid_file }, x)
  handle_option (tcp_port arg) (o, x) =
      going (record o { tcp_port = c.to_int (c.strtol 10 arg) }, x)
  handle_option (path arg) (o, x) = going (record o { path = arg }, x)
  handle_option (interval arg) (o, x) = going (o, set_ping_pong (c.to_int (c.strtol 10 arg)) x)
  handle_option ssl (o, x) = going (record o { ssl = true }, x)
  handle_option (key arg) (o, x) = going (record o { key_file = arg }, x)
  handle_option (cert arg) (o, x) = going (record o { cert_file = arg }, x)
  handle_option version (o, x) = done (pos 0) (record o { version = true }, x)
  handle_option help (o, x) = done (pos 0) (record o { help = true }, x)
  handle_option unlisted (o, x) = done (negsuc 0) (o, x)

  unfoldable pub handle_options : List Opt → Options × Ctx Hook → ℤ × Options × Ctx Hook
  handle_options [] s = (pos 0, s.0, s.1)
  handle_options (opt ∷ opts) s = elim (handle_option opt s) [
    | going t ↦ handle_options opts t
    | done ret t ↦ (ret, t.0, t.1)
  ]
