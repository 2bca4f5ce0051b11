-- ===== src/Tests/Openings.antt =====
-- Runs of a client that opens: it waits, and its thread's callback reports.
use usbws_lws.Base.{◌≡◌, refl, false, some, List, [], ◌∷◌, ℤ, pos}
use usbws_lws.Condition.{Reached, began, stepped, worked, Runs, worker_step, perform}
use usbws_lws.Client.Opening.{
  Event, starting, finishing, Opening, OpenerAt, entering, woken, answered, answer, opening,
  opener_step, deed, event_instrs, start_instrs, notify_instrs,
}
use usbws_lws.Client.Opening.Settle.{Settled, opener_settles}
use usbws_lws.Client.Opening.Report.{Reported, opener_reports}
use usbws_lws.Tests.Clients.{signed_char, client}

abbrev plans : List (List Event)
plans = (starting 7 ∷ finishing ∷ []) ∷ []

abbrev opened : OpenerAt → Opening
opened at = record {
  shared = record client { wsi = some 7; started = pos 1 };
  locked = false;
  at = at;
  workers = record { current = []; jobs = finishing ∷ [] } ∷ [];
}

told : Reached (opening signed_char) client entering plans (opened woken)
unfolding opener_step worker_step perform deed event_instrs start_instrs notify_instrs
told =
    let waits = stepped (stepped began refl) refl in
    let known = worked 0 _ (worked 0 _ waits refl refl) refl refl in
    let set = worked 0 _ (worked 0 _ known refl refl) refl refl in
    worked 0 _ (worked 0 _ set refl refl) refl refl

returned : Reached (opening signed_char) client entering plans (opened (answered (pos 0)))
unfolding opener_step
returned = stepped (stepped (stepped (stepped told refl) refl) refl) refl

opener_settles_example : (n : Opening) × Runs (opening signed_char) (opened woken) n × Settled n
opener_settles_example = opener_settles signed_char client plans (opened woken) told (refl, tt)

opener_reports_example : (v : ℤ) × Reported plans v × (pos 0 ≡ answer (signed_char.to_char v))
opener_reports_example =
    opener_reports signed_char client plans (opened (answered (pos 0))) (pos 0) refl returned refl
