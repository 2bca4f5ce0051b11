-- ===== src/Daemon/Service.antt =====
-- `usbws_service`: the loop that serves the connections, until the context is stopped.
use usbws_lws.Base.{
  ℕ, Bool, Option, none, some, List, [], ◌∷◌, ◌++◌, ℤ, pos, negsuc, is_true, if◌then◌else◌,
}
use usbws_lws.Ctx.{Ctx, CreationInfo, set_info, ctx_create, ctx_destroy, ctx_stop, ctx_stopped}
use usbws_lws.Util.{get_port}
use usbws_lws.Daemon.Options.{Options}
use usbws_lws.Daemon.Acts.{
  Act, context_created, context_destroyed, set_sigint, serviced, health_checked,
}

-- One call of `lws_service`: what it returned, and whether a SIGINT came during the turn.
pub record Served : Type 0 where
  pub ret : ℤ
  pub interrupted : Bool

-- `usbws_ctx_destroy`, with the call that it makes.
abbrev pub destroy_acts : Option ℕ → List Act
destroy_acts none = []
destroy_acts (some c) = context_destroyed c ∷ []

abbrev pub service_info : Options → CreationInfo
service_info o = set_info (get_port o.tcp_port o.ssl) o.ssl (some o.key_file) (some o.cert_file)

module _ {Hook : Type 0} where
  -- `usbws_sighandler` stops the context of the service.
  unfoldable pub sighandler : Ctx Hook → Ctx Hook
  sighandler x = (ctx_stop x).0

  abbrev pub turn_ctx : Served → Ctx Hook → Ctx Hook
  turn_ctx t x = if t.interrupted then sighandler x else x

  -- The loop, over what its calls of `lws_service` answer; `none` while it goes on after them.
  unfoldable pub service_loop :
      (context : ℕ) → (timeout : ℤ) → List Served → Ctx Hook → Option (Ctx Hook × List Act)
  service_loop c timeout [] x = if ctx_stopped x then some (x, []) else none
  service_loop c timeout (t ∷ ts) x =
      let y = turn_ctx t x in
      let rest = service_loop c timeout ts y in
      if ctx_stopped x
      then some (x, [])
      else if is_true t.ret
      then some (y, serviced c timeout ∷ [])
      else elim rest [
        | none ↦ none
        | some (z, acts) ↦ some (z, serviced c timeout ∷ health_checked c ∷ acts)
      ]

  -- `times1000` is the multiplication of the period in C; `created` what `lws_create_context`
  -- returned.
  unfoldable pub service :
      (times1000 : ℤ → ℤ)
      → (created : Option ℕ) → List Served
      → Options
      → Ctx Hook
      → Option (ℤ × Ctx Hook × List Act)
  service times1000 none ts o x = some (negsuc 0, ctx_create none x, [])
  service times1000 (some c) ts o x =
      elim (service_loop c (times1000 x.ping_pong) ts (ctx_create (some c) x)) [
        | none ↦ none
        | some (y, acts) ↦ some (
          pos 0,
          (ctx_destroy y).0,
          context_created (service_info o) c ∷ set_sigint ∷ acts ++ destroy_acts (ctx_destroy y).1,
        )
      ]
