-- ===== src/Session/Broadcast/Each.antt =====
-- What a broadcast does to each connection.
use usbws_lws.Base.{ℕ, ◌+◌, ◌≡◌, refl, ◌∙◌, Option, none, some, List, [], ◌∷◌, ℤ}
use usbws_lws.Session.State.{Session}
use usbws_lws.Session.Write.{◌>>=◌}
use usbws_lws.Session.Callback.{Outcome}
use usbws_lws.Session.Broadcast.{CallAll, CallsAll, visit}

abbrev pub All : (Session → Type 0) → List Session → Type 0
All P [] = Unit
All P (s ∷ conns) = P s × All P conns

-- `P` holds of each position and its sessions before and after, of as many connections.
abbrev pub Each : (ℕ → Session → Session → Type 0) → ℕ → List Session → List Session → Type 0
Each P i [] [] = Unit
Each P i [] (_ ∷ _) = ⊥
Each P i (_ ∷ _) [] = ⊥
Each P i (s ∷ conns) (t ∷ after) = P i s t × Each P (i + 1) conns after

module _ {State : Type 0} (I : State → Type 0) where
  -- The callback returns, with a session that has the property, and keeps `I`.
  abbrev pub Ends : (Session → Type 0) → Outcome State → Type 0
  Ends P none = ⊥
  Ends P (some (_, none, _)) = ⊥
  Ends P (some (_, some t, st)) = P t × I st

  module _ (P : ℕ → Session → Session → Type 0) (Q : Session → Type 0)
      (f : ℕ → Session → State → Outcome State)
      (one : (i : ℕ) (s : Session) (st : State) → I st → Q s → Ends (P i s) (f i s st)) where
    abbrev Visited : ℕ → List Session → Option (List Session × State) → Type 0
    Visited i conns r =
        (after : List Session) × (st : State) × (r ≡ some (after, st)) × Each P i conns after × I st

    visits_first :
        (i : ℕ) (s : Session) (conns : List Session) (r : Outcome State)
        → Ends (P i s) r
        → ((u : State) → I u → Visited (i + 1) conns (visit f (i + 1) conns u))
        → Visited i (s ∷ conns) (do
          (_, left, st1) ← r
          t ← left
          (rest, st2) ← visit f (i + 1) conns st1
          some (t ∷ rest, st2))
    visits_first i s conns none h next = absurd h
    visits_first i s conns (some (_, none, _)) h next = absurd h
    visits_first i s conns (some (_, some t, u)) (h, hu) next =
        let (after, st, e, each, hst) = next u hu in (t ∷ after, st, rw e, (h, each), hst)

    visit_lem :
        (i : ℕ) (conns : List Session) (st : State)
        → I st
        → All Q conns
        → Visited i conns (visit f i conns st)
    unfolding visit
    visit_lem i [] st h q = ([], st, refl, tt, h)
    visit_lem i (s ∷ conns) st h (q, qs) =
        visits_first i s conns (f i s st) (one i s st h q) (λ u hu. visit_lem (i + 1) conns u hu qs)

    pub calls_lem :
        (all : CallAll State)
        → CallsAll all
        → (conns : List Session) (st : State) → I st
        → All Q conns
        → (ret : ℤ) × (after : List Session) × (u : State) × (all f conns st ≡ some (ret, after, u))
          × Each P 0 conns after
          × I u
    calls_lem all calls conns st h q =
        let (ret, e) = calls f conns st in
        let (after, u, e', each, hu) = visit_lem 0 conns st h q in
        (ret, after, u, e ∙ rw e', each, hu)
