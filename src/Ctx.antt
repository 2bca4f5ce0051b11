-- ===== src/Ctx.antt =====
-- src/usbws_ctx.h and src/usbws_ctx.c: the context that a daemon or a client runs its service with.
-- A function pointer of the source is a value of a type `Hook`, which the owner of the context
-- interprets; a `struct lws_context *` is its address.
pub mod Sigint
pub mod Protocols
use Protocols.{Protocol, protocols}
use usbws_lws.Base.{ℕ, Bool, true, false, not, Option, none, some, List, ℤ, pos}

abbrev pub ping_pong_default : ℤ
ping_pong_default = pos 60

abbrev pub ping_pong_timeout : ℤ
ping_pong_timeout = pos 60

abbrev pub ping_pong_client_margin : ℤ
ping_pong_client_margin = pos 60

pub record Ctx (Hook : Type 0) : Type 0 where
  pub cont : Bool
  pub ping_pong : ℤ
  pub context : Option ℕ
  pub start : Option Hook
  pub stop : Option Hook

-- What `usbws_set_info` fills in, but for `user`, the context itself; the rest of
-- `struct lws_context_creation_info` is zero.
pub record CreationInfo : Type 0 where
  pub protocols : List Protocol
  pub port : ℤ
  pub ssl_private_key_filepath : Option (List ℕ)
  pub ssl_cert_filepath : Option (List ℕ)

unfoldable pub set_info : (port : ℤ) → (ssl : Bool) → (key cert : Option (List ℕ)) → CreationInfo
set_info port true key cert = record {
  protocols = protocols;
  port = port;
  ssl_private_key_filepath = key;
  ssl_cert_filepath = cert;
}
set_info port false key cert = record {
  protocols = protocols;
  port = port;
  ssl_private_key_filepath = none;
  ssl_cert_filepath = none;
}

module _ {Hook : Type 0} where
  -- Of a context that is not otherwise written, `context` keeps what it held.
  unfoldable pub ctx_init : Ctx Hook → (start stop : Hook) → Ctx Hook
  ctx_init ctx start stop = record ctx {
    cont = true;
    ping_pong = ping_pong_default;
    start = some start;
    stop = some stop;
  }

  -- `created` is what `lws_create_context` returned, `none` for NULL.
  unfoldable pub ctx_create : (created : Option ℕ) → Ctx Hook → Ctx Hook
  ctx_create created ctx = record ctx { context = created }

  -- The second component is the context that is handed to `lws_context_destroy`.
  unfoldable pub ctx_destroy : Ctx Hook → Ctx Hook × Option ℕ
  ctx_destroy ctx = elim ctx.context [
    | none ↦ (ctx, none)
    | some c ↦ (record ctx { context = none }, some c)
  ]

  unfoldable pub set_ping_pong : ℤ → Ctx Hook → Ctx Hook
  set_ping_pong p ctx = record ctx { ping_pong = p }

  -- The second component is the context whose service is cancelled.
  unfoldable pub ctx_stop : Ctx Hook → Ctx Hook × Option ℕ
  ctx_stop ctx = (record ctx { cont = false }, ctx.context)

  unfoldable pub ctx_stopped : Ctx Hook → Bool
  ctx_stopped ctx = not ctx.cont
