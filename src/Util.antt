-- ===== src/Util.antt =====
-- src/usbws_util.c. A number that a `char *` points at is the list of its characters.
use usbws_lws.Base.{
  ◌≡◌, refl, ◌==◌, ◌&&◌, arith, ℕ, Bool, true, false, List, [], ◌∷◌, ℤ, pos, is_true, if◌then◌else◌,
}

abbrev pub Str : Type 0
Str = List ℕ

-- `strcmp(s, t) == 0`
abbrev pub same_str : Str → Str → Bool
same_str [] [] = true
same_str (a ∷ s) (b ∷ t) = (a == b) && same_str s t
same_str _ _ = false

pub same_str_refl : (s : Str) → same_str s s ≡ true
same_str_refl [] = refl
same_str_refl (a ∷ s) = ground (arith, same_str_refl s)

pub same_str-true : (s t : Str) → same_str s t ≡ true → s ≡ t
same_str-true [] [] e = refl
same_str-true (a ∷ s) (b ∷ t) e = ground (arith, same_str-true s t)
same_str-true [] (b ∷ t) e = cc
same_str-true (a ∷ s) [] e = cc

-- `strtol`, and what the platform makes of a `long` that goes into an `int` or an `unsigned long`.
pub record Libc : Type 0 where
  pub strtol : (base : ℕ) → Str → ℤ
  pub to_int : ℤ → ℤ
  pub to_unsigned_long : ℤ → ℕ

-- The calls of libwebsockets and of the USB/IP library that set how they log.
pub data LogCall : Type 0 where
  use_stderr use_debug use_syslog : LogCall
  log_all : LogCall

unfoldable pub get_port : (port : ℤ) → (ssl : Bool) → ℤ
get_port port ssl = if is_true port then port else if ssl then pos 443 else pos 80

unfoldable pub set_debug : Bool → List LogCall
set_debug true = use_stderr ∷ log_all ∷ use_debug ∷ []
set_debug false = use_stderr ∷ []
