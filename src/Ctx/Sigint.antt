-- ===== src/Ctx/Sigint.antt =====
-- `usbws_set_sigint` and `usbws_sighandler` of src/usbws_ctx.c. The call of
-- `usbip_break_all_connections` is the USB/IP library's, and changes no context.
use usbws_lws.Base.{ℕ, ◌≡◌, Bool, true, ◌==◌, Option, none, some, arith, if◌then◌else◌}
use usbws_lws.Ctx.{Ctx, ctx_stop}

-- The static variable, which points to a context, and whether SIGINT has the handler.
pub record Signals : Type 0 where
  pub servicing_ctx : Option ℕ
  pub handled : Bool

unfoldable pub set_sigint : (ctx : ℕ) → Signals → Signals
set_sigint ctx s = record { servicing_ctx = some ctx; handled = true }

module _ {Hook : Type 0} where
  -- On the contexts by their addresses.
  unfoldable pub interrupt : Signals → (ℕ → Ctx Hook) → ℕ → Ctx Hook
  interrupt s ctxs p = elim s.servicing_ctx [
    | none ↦ ctxs p
    | some c ↦ if c == p then (ctx_stop (ctxs c)).0 else ctxs p
  ]

  -- After `usbws_set_sigint`, an interrupt stops that context and no other.
  pub interrupt-set_sigint :
      (c p : ℕ) (s : Signals) (ctxs : ℕ → Ctx Hook)
      → interrupt (set_sigint c s) ctxs p ≡ (if c == p then (ctx_stop (ctxs p)).0 else ctxs p)
  unfolding interrupt set_sigint
  interrupt-set_sigint c p s ctxs = ground arith
