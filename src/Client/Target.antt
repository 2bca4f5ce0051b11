-- ===== src/Client/Target.antt =====
-- `usbws_client_set_target` and `usbws_client_free`, with the blocks that they take and give back.
use usbws_lws.Base.{
  ℕ, ◌+◌, Bool, true, false, Option, none, some, [], ◌∷◌, ℤ, pos, negsuc, length, take, ◌==◌,
  if◌then◌else◌,
}
use usbws_lws.Client.Memory.{Memory, malloc, has_room, free}
use usbws_lws.Client.State.{Client, verify_none, verify_relaxed}
use usbws_lws.Util.{Str, same_str}

-- What `lws_parse_uri` finds in a string that it accepts.
pub record Uri : Type 0 where
  pub method : Str
  pub host : Str
  pub port : ℤ
  pub path : Str

-- The library calls: `lws_parse_uri`, `none` for a failure; `printf`'s `%d`; and whether `malloc`
-- finds memory for the copy of the URL, for that of the proxy, and for the proxy's name.
pub record Platform : Type 0 where
  pub parse_uri : Str → Option Uri
  pub print_int : ℤ → Str
  pub memory_for_url : Bool
  pub memory_for_tmp : Bool
  pub memory_for_proxy : Bool

abbrev pub tcp_port_len : ℕ
tcp_port_len = 7

abbrev pub str_none : Str
str_none = b'n' ∷ b'o' ∷ b'n' ∷ b'e' ∷ []

abbrev pub str_relaxed : Str
str_relaxed = b'r' ∷ b'e' ∷ b'l' ∷ b'a' ∷ b'x' ∷ b'e' ∷ b'd' ∷ []

abbrev pub str_ws : Str
str_ws = b'w' ∷ b's' ∷ []

abbrev pub str_wss : Str
str_wss = b'w' ∷ b's' ∷ b's' ∷ []

unfoldable pub handle_verification : Str → Client → ℤ × Client
handle_verification arg c =
    if same_str arg str_none
    then (pos 0, record c { verification = verify_none })
    else if same_str arg str_relaxed
    then (pos 0, record c { verification = verify_relaxed })
    else (negsuc 0, c)

-- The result of a call: what it returns, the client and the memory; `none` is an access that C
-- does not define.
abbrev pub Result : Type 0
Result = Option (ℤ × Client × Memory)

abbrev pub freeing : Option ℕ → (Memory → Result) → Memory → Result
freeing a k m = elim (free a m) [ none ↦ none | some n ↦ k n ]

unfoldable pub client_free : Client → Memory → Option Memory
client_free c m = elim (free c.url_work m) [ none ↦ none | some n ↦ free c.proxy n ]

-- `snprintf(client->proxy, …)` writes no more than the block holds, so that it has no effect here.
abbrev pub name_proxy : Platform → ℕ → Uri → Client → Memory → Result
name_proxy p tmp uri c m =
    let got = malloc p.memory_for_proxy (length uri.host + tcp_port_len + 2) m in
    elim got.0 [
      | none ↦ freeing (some tmp) (λ n. some (negsuc 0, record c { proxy = none }, n)) got.1
      | some block ↦ some (pos 0, record c { proxy = some block }, got.1)
    ]

abbrev pub copy_proxy : Platform → ℕ → Str → Client → Memory → Result
copy_proxy p tmp proxy c m =
    if has_room tmp (length proxy + 1) m.blocks
    then elim (p.parse_uri proxy) [
      | none ↦ freeing (some tmp) (λ n. some (negsuc 0, c, n)) m
      | some uri ↦ name_proxy p tmp uri c m
    ]
    else none

-- `strlen(proxy + 1)` is the length of all but the first character, and reads past the end of an
-- empty string.
unfoldable pub set_proxy : Platform → Option Str → Client → Memory → Result
set_proxy p none c m = some (pos 0, record c { proxy = none }, m)
set_proxy p (some []) c m = none
set_proxy p (some (a ∷ rest)) c m =
    let got = malloc p.memory_for_tmp (length rest) m in
    elim got.0 [ none ↦ some (negsuc 0, c, got.1) | some tmp ↦ copy_proxy p tmp (a ∷ rest) c got.1 ]

-- `err_free`: the block is given back, the pointer to it is kept.
abbrev pub fail_target : Client → Memory → Result
fail_target c m = freeing c.url_work (λ n. some (negsuc 0, record c { url = none }, n)) m

-- The method decides on SSL.
abbrev pub ssl_of : Str → Option Bool
ssl_of method =
    if same_str method str_ws
    then some false
    else if same_str method str_wss
    then some true
    else none

abbrev pub with_uri : Platform → Uri → Client → Client
with_uri p uri c = record c {
  method = uri.method;
  host = uri.host;
  tcp_port = uri.port;
  path = uri.path;
  tcp_port_s = take 6 (p.print_int uri.port);
}

abbrev pub use_uri : Platform → Option Str → Uri → Client → Memory → Result
use_uri p proxy uri c m = elim (ssl_of uri.method) [
  | none ↦ fail_target (with_uri p uri c) m
  | some ssl ↦ elim (set_proxy p proxy (record (with_uri p uri c) { ssl = ssl }) m) [
    | none ↦ none
    | some (ret, d, n) ↦ elim ret [
      | ℤ.pos z ↦ if z == 0 then some (pos 0, d, n) else fail_target d n
      | ℤ.negsuc _ ↦ fail_target d n
    ]
  ]
]

unfoldable pub set_target : Platform → (url : Str) → (proxy : Option Str) → Client → Memory → Result
set_target p url proxy c0 m0 =
    let got = malloc p.memory_for_url (length url + 1) m0 in
    let c = record c0 { url = some url; url_work = got.0 } in
    elim got.0 [
      | none ↦ some (negsuc 0, c, got.1)
      | some work ↦
          if has_room work (length url + 1) got.1.blocks
          then elim (p.parse_uri url) [
            | none ↦ fail_target c got.1
            | some uri ↦ use_uri p proxy uri c got.1
          ]
          else none
    ]
