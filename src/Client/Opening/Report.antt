-- ===== src/Client/Opening/Report.antt =====
-- What `usbws_client_wait_start` answers is what a callback has reported.
use usbws_lws.Base.{
  ◌≡◌, ◌⊎◌, inl, inr, refl, true, false, Option, none, some, List, [], ◌∷◌, arith, ℤ, pos, negsuc,
  is_true, subst, ap, ◌∙◌, Bool-cases,
}
use usbws_lws.Condition.{Reached}
use usbws_lws.Condition.Invariant.{
  Kept, moved, PlanAllowed, PlansAllowed, AllAllowed, Reached-Holds,
}
use usbws_lws.Client.State.{Client}
use usbws_lws.Client.Start.{Compiled}
use usbws_lws.Client.Opening.{
  OpenerAt, entering, testing, waiting, woken, leaving, reading, answered, Deed, knows, forgets,
  stops, destroys, sets, Event, starting, stopping, interrupting, finishing, Opening, notify_instrs,
  start_instrs, stop_instrs, event_instrs, awake, answer, opener_step, deed, opening,
}

-- What a callback reports to the thread that opens.
abbrev pub report : Event → Option ℤ
report (starting wsi) = some (pos 1)
report stopping = some (negsuc 0)
report _ = none

abbrev ReportedIn : List Event → ℤ → Type 0
ReportedIn [] v = ⊥
ReportedIn (e ∷ js) v = (report e ≡ some v) ⊎ ReportedIn js v

-- A callback among the calls of the threads reports the value.
abbrev pub Reported : List (List Event) → ℤ → Type 0
Reported [] v = ⊥
Reported (js ∷ plans) v = ReportedIn js v ⊎ Reported plans v

module _ (k : Compiled) (Is : ℤ → Type 0) where
  abbrev Allowed : Deed → Type 0
  Allowed (sets val) = Is (k.to_char val)
  Allowed _ = Unit

  event_instrs-AllAllowed :
      (e : Event)
      → ((v : ℤ) → report e ≡ some v → Is (k.to_char v))
      → AllAllowed (opening k) Allowed (event_instrs e)
  unfolding event_instrs start_instrs stop_instrs notify_instrs
  event_instrs-AllAllowed (starting wsi) h = (tt, (h (pos 1) refl, tt))
  event_instrs-AllAllowed stopping h = (tt, (tt, (h (negsuc 0) refl, tt)))
  event_instrs-AllAllowed interrupting h = (tt, tt)
  event_instrs-AllAllowed finishing h = (tt, tt)

  ReportedIn-PlanAllowed :
      (js : List Event)
      → ((v : ℤ) → ReportedIn js v → Is (k.to_char v))
      → PlanAllowed (opening k) Allowed js
  ReportedIn-PlanAllowed [] h = tt
  ReportedIn-PlanAllowed (e ∷ js) h = (
    event_instrs-AllAllowed e (λ v r. h v (inl r)),
    ReportedIn-PlanAllowed js (λ v r. h v (inr r)),
  )

  Reported-PlansAllowed :
      (plans : List (List Event))
      → ((v : ℤ) → Reported plans v → Is (k.to_char v))
      → PlansAllowed (opening k) Allowed plans
  Reported-PlansAllowed [] h = tt
  Reported-PlansAllowed (js ∷ plans) h = (
    ReportedIn-PlanAllowed js (λ v r. h v (inl r)),
    Reported-PlansAllowed plans (λ v r. h v (inr r)),
  )

  -- Behind its test the thread has seen a value, and answers by one.
  abbrev Told : (started : ℤ) → OpenerAt → Type 0
  Told z leaving = Is z
  Told z reading = Is z
  Told z (answered r) = (v : ℤ) × Is v × (r ≡ answer v)
  Told z _ = (z ≡ pos 0) ⊎ Is z

  sets-Told : (z w : ℤ) (at : OpenerAt) → Is w → Told z at → Told w at
  sets-Told z w entering i h = inr i
  sets-Told z w testing i h = inr i
  sets-Told z w waiting i h = inr i
  sets-Told z w woken i h = inr i
  sets-Told z w leaving i h = i
  sets-Told z w reading i h = i
  sets-Told z w (answered r) i h = h

  deed-Told :
      (x : Deed) (c : Client) (at : OpenerAt)
      → Allowed x
      → Told c.started at
      → Told (deed k x c).started at
  unfolding deed
  deed-Told (knows wsi) c at a h = h
  deed-Told forgets c at a h = h
  deed-Told stops c at a h = h
  deed-Told destroys c at a h = h
  deed-Told (sets val) c at a h = sets-Told c.started (k.to_char val) at a h

  awake-Told : (c : Client) (at : OpenerAt) → Told c.started at → Told c.started (awake at)
  awake-Told c entering h = h
  awake-Told c testing h = h
  awake-Told c waiting h = h
  awake-Told c woken h = h
  awake-Told c leaving h = h
  awake-Told c reading h = h
  awake-Told c (answered r) h = h

  abbrev TellsHolds : Client → OpenerAt → Type 0
  TellsHolds c at = Told c.started at

  opener_step-Told :
      (m n : Opening) → opener_step m ≡ some n → Told m.shared.started m.at → Kept TellsHolds m n
  unfolding opener_step
  opener_step-Told m n e h = from m.at refl h
    where
      from : (at : OpenerAt) → m.at ≡ at → Told m.shared.started at → Kept TellsHolds m n
      from entering w h =
          moved TellsHolds m (record m { locked = true; at = testing }) n (ground arith) (h, refl)
      from testing w h = elim (Bool-cases (is_true m.shared.started)) [
        | inl on ↦ elim h [
          | inl zero_ ↦ absurd (ground arith)
          | inr i ↦ moved TellsHolds m (record m { at = leaving }) n (ground arith) (i, refl)
        ]
        | inr off ↦
            moved TellsHolds m (record m { locked = false; at = waiting }) n (ground arith)
              (h, refl)
      ]
      from waiting w h = absurd (ground arith)
      from woken w h =
          moved TellsHolds m (record m { locked = true; at = testing }) n (ground arith) (h, refl)
      from leaving w h =
          moved TellsHolds m (record m { locked = false; at = reading }) n (ground arith) (h, refl)
      from reading w h =
          moved TellsHolds m (record m { at = answered (answer m.shared.started) }) n (ground arith)
            ((m.shared.started, h, refl), refl)
      from (answered r) w h = absurd (ground arith)

-- Whatever the order of the steps of the client's threads: of a client whose `started` is 0, what
-- `usbws_client_wait_start` returns is its answer to the value, as a `char`, that a callback among
-- the calls of the threads reports. It never returns where no callback starts or stops a session;
-- and it returns 0 only where a callback has reported a value that a `char` does not make negative.
pub opener_reports :
    (k : Compiled) (c : Client) (plans : List (List Event)) (m : Opening) (r : ℤ)
    → c.started ≡ pos 0
    → Reached (opening k) c entering plans m
    → m.at ≡ answered r
    → (v : ℤ) × Reported plans v × (r ≡ answer (k.to_char v))
opener_reports k c plans m r zero_ run at =
    let (w, (v, told, same), e) = subst (Told k Is m.shared.started) at told_all in
    (v, told, e ∙ ap answer same)
  where
    Is : ℤ → Type 0
    Is w = (v : ℤ) × Reported plans v × (w ≡ k.to_char v)

    told_all : Told k Is m.shared.started m.at
    told_all =
        Reached-Holds (opening k) (Allowed k Is) (λ c at. Told k Is c.started at) (deed-Told k Is)
          (awake-Told k Is) (opener_step-Told k Is) (inl zero_)
          (Reported-PlansAllowed k Is plans (λ v told. (v, told, refl))) run
