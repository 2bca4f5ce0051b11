-- ===== src/Daemon/Release.antt =====
-- The daemon gives back what it takes, and its loop ends when it is told to.
use usbws_lws.Base.{
  ℕ, ◌+◌, ◌≡◌, Bool, true, false, ◌||◌, none, some, List, [], ◌∷◌, arith, ℤ, is_true, Bool-cases,
  inl, inr, if◌then◌else◌,
}
use usbws_lws.Ctx.{Ctx, ctx_stop, ctx_stopped}
use usbws_lws.Daemon.Options.{Options}
use usbws_lws.Daemon.Acts.{Act, serviced, health_checked, Held}
use usbws_lws.Daemon.Service.{Served, turn_ctx, sighandler, service_loop}
use usbws_lws.Daemon.Hooks.{Hook}
use usbws_lws.Daemon.Acts

-- A turn that ends the loop.
abbrev pub stops : Served → Bool
stops t = is_true t.ret || t.interrupted

abbrev pub stops_within : List Served → Bool
stops_within [] = false
stops_within (t ∷ ts) = stops t || stops_within ts

-- The turns up to the first that ends the loop.
abbrev pub turns_until_stop : List Served → ℕ
turns_until_stop [] = 0
turns_until_stop (t ∷ ts) = if stops t then 1 else turns_until_stop ts + 1

abbrev pub turns_made : List Act → ℕ
turns_made [] = 0
turns_made (serviced _ _ ∷ acts) = turns_made acts + 1
turns_made (_ ∷ acts) = turns_made acts

module _ {Hook : Type 0} (c : ℕ) (timeout : ℤ) where
  service_loop_stopped :
      (ts : List Served) (x : Ctx Hook)
      → x.cont ≡ false
      → service_loop c timeout ts x ≡ some (x, [])
  unfolding service_loop sighandler ctx_stopped ctx_stop
  service_loop_stopped [] x off = ground arith
  service_loop_stopped (t ∷ ts) x off = ground arith

  -- The loop of a running service ends with the first turn that fails or that a SIGINT interrupts,
  -- if there is one, and calls `lws_service` no more after it.
  pub service_loop_ends :
      (ts : List Served) (x : Ctx Hook)
      → x.cont ≡ true
      → stops_within ts ≡ true
      → (y : Ctx Hook) × (acts : List Act) × (service_loop c timeout ts x ≡ some (y, acts))
        × (turns_made acts ≡ turns_until_stop ts)
  unfolding service_loop sighandler ctx_stopped ctx_stop
  service_loop_ends [] x on e = cc
  service_loop_ends (t ∷ ts) x on e = elim (Bool-cases (is_true t.ret)) [
    | inl failed ↦ (turn_ctx t x, serviced c timeout ∷ [], ground arith, ground arith)
    | inr fine ↦ elim (Bool-cases t.interrupted) [
      | inl sigint ↦ (
        turn_ctx t x,
        serviced c timeout ∷ health_checked c ∷ [],
        ground (arith, service_loop_stopped ts (turn_ctx t x)),
        ground arith,
      )
      | inr on' ↦
          let (y, acts, run, count) = service_loop_ends ts x on (ground arith) in
          (y, serviced c timeout ∷ health_checked c ∷ acts, ground arith, ground arith)
    ]
  ]

-- What is held while the driver is open.
serving : Options → Held
serving o = record { pid_stream = false; pid_file = o.pid_file; driver = true; context = none }
