-- ===== src/Options.antt =====
-- The command lines of the programs: the tables for `getopt_long`, the cases of the `switch` on
-- what it returns, and the help texts. `usbwsd.c` also makes usbwsa.
pub mod Help
pub mod Read
pub mod Agree
pub mod Usage
use Prim.Native.String.{String}
use usbws_lws.Base.{ℕ, Bool, List, [], ◌∷◌, ◌++◌, if◌then◌else◌}

pub data Program : Type 0 where
  usbwsd connect_kind list bind_kind detach port : Program

pub data Argument : Type 0 where
  no_argument required_argument optional_argument : Argument

-- `struct option`, less `flag`, which is NULL.
pub record LongOpt : Type 0 where
  pub name : String
  pub has_arg : Argument
  pub val : ℕ

abbrev pub opt : String → Argument → ℕ → LongOpt
opt name has_arg val = record { name = name; has_arg = has_arg; val = val }

-- What `#ifdef USBIP_WITH_LIBUSB` puts in, and `#ifndef`.
abbrev pub ifdef : {A : Type 0} → Bool → List A → List A
ifdef with_libusb xs = if with_libusb then xs else []

abbrev pub ifndef : {A : Type 0} → Bool → List A → List A
ifndef with_libusb xs = if with_libusb then [] else xs

abbrev debug_opt : LongOpt
debug_opt = opt "debug" no_argument b'd'

abbrev flag_opt : Bool → List LongOpt
flag_opt b = ifdef b (opt "flag" required_argument b'f' ∷ [])

abbrev help_opt : LongOpt
help_opt = opt "help" no_argument b'h'

-- What a program gives to `getopt_long`, and the letters that have a case of their own in the switch
-- on what it returns.
pub record CommandLine : Type 0 where
  pub longopts : List LongOpt
  pub optstring : String
  pub cases : List ℕ

unfoldable pub usbwsd_line : (with_libusb : Bool) → CommandLine
usbwsd_line b = record {
  longopts =
      opt "daemon" no_argument b'D'
      ∷ debug_opt
      ∷ (flag_opt b
          ++ opt "pid" optional_argument b'P'
            ∷ opt "tcp-port" required_argument b't'
            ∷ opt "path" required_argument b'p'
            ∷ opt "interval" required_argument b'i'
            ∷ opt "ssl" no_argument b's'
            ∷ opt "key" required_argument b'k'
            ∷ opt "cert" required_argument b'c'
            ∷ help_opt
            ∷ opt "version" no_argument b'v'
            ∷ []);
  optstring = "Ddf:P::t:p:i:sk:c:hv";
  cases =
      b'D'
      ∷ b'd'
      ∷ (ifdef b (b'f' ∷ []) ++ b'P' ∷ b't' ∷ b'p' ∷ b'i' ∷ b's' ∷ b'k' ∷ b'c' ∷ b'v' ∷ b'h' ∷ []);
}

unfoldable pub connect_kind_line : (with_libusb : Bool) → CommandLine
connect_kind_line b = record {
  longopts =
      debug_opt
      ∷ (flag_opt b
          ++ opt "url" required_argument b'u'
            ∷ opt "proxy" required_argument b'x'
            ∷ opt "bus-id" required_argument b'b'
            ∷ opt "interval" required_argument b'i'
            ∷ opt "key" required_argument b'k'
            ∷ opt "cert" required_argument b'c'
            ∷ opt "verification" required_argument b'V'
            ∷ help_opt
            ∷ []);
  optstring = if b then "df:u:x:i:b:k:c:V:h" else "du:x:i:b:k:c:V:h";
  cases =
      b'd' ∷ (ifdef b (b'f' ∷ []) ++ b'u' ∷ b'x' ∷ b'b' ∷ b'i' ∷ b'k' ∷ b'c' ∷ b'V' ∷ b'h' ∷ []);
}

unfoldable pub list_line : (with_libusb : Bool) → CommandLine
list_line b = record {
  longopts =
      debug_opt
      ∷ (flag_opt b
          ++ opt "local" no_argument b'l'
            ∷ (ifndef b (
                  opt "url" required_argument b'u'
                  ∷ opt "proxy" required_argument b'x'
                  ∷ opt "bus-id" required_argument b'b'
                  ∷ opt "key" required_argument b'k'
                  ∷ opt "cert" required_argument b'c'
                  ∷ opt "verification" required_argument b'V'
                  ∷ [])
                ++ opt "parsable" no_argument b'p' ∷ help_opt ∷ []));
  optstring = if b then "df:u:x:k:c:V:lph" else "du:x:k:c:V:lph";
  cases =
      b'd'
      ∷ (ifdef b (b'f' ∷ [])
          ++ b'l' ∷ (ifndef b (b'u' ∷ b'x' ∷ b'k' ∷ b'c' ∷ b'V' ∷ []) ++ b'p' ∷ b'h' ∷ []));
}

unfoldable pub bind_kind_line : (with_libusb : Bool) → CommandLine
bind_kind_line b = record {
  longopts = debug_opt ∷ (flag_opt b ++ opt "bus-id" required_argument b'b' ∷ help_opt ∷ []);
  optstring = if b then "df:b:h" else "db:h";
  cases = b'd' ∷ (ifdef b (b'f' ∷ []) ++ b'b' ∷ b'h' ∷ []);
}

unfoldable pub detach_line : (with_libusb : Bool) → CommandLine
detach_line b = record {
  longopts = debug_opt ∷ (flag_opt b ++ opt "port" required_argument b'p' ∷ help_opt ∷ []);
  optstring = if b then "df:p:h" else "dp:h";
  cases = b'd' ∷ (ifdef b (b'f' ∷ []) ++ b'p' ∷ b'h' ∷ []);
}

unfoldable pub port_line : (with_libusb : Bool) → CommandLine
port_line b = record {
  longopts = debug_opt ∷ (flag_opt b ++ help_opt ∷ []);
  optstring = if b then "df:h" else "dh";
  cases = b'd' ∷ (ifdef b (b'f' ∷ []) ++ b'h' ∷ []);
}

unfoldable pub command_line : (with_libusb : Bool) → Program → CommandLine
unfolding usbwsd_line connect_kind_line list_line bind_kind_line detach_line port_line
command_line b usbwsd = usbwsd_line b
command_line b connect_kind = connect_kind_line b
command_line b list = list_line b
command_line b bind_kind = bind_kind_line b
command_line b detach = detach_line b
command_line b port = port_line b
