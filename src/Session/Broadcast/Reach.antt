-- ===== src/Session/Broadcast/Reach.antt =====
-- What `usbws_health_check` and `usbws_request_send` do to the sessions of a context.
use usbws_lws.Base.{
  ℕ, ◌≡◌, ◌⊎◌, inl, inr, refl, ap, subst, ◌∙◌, true, false, none, some, List, [], ◌∷◌, ℤ,
}
use usbws_lws.Ctx.{Ctx}
use usbws_lws.Session.State.{Session, Io}
use usbws_lws.Session.Write.Chunks.{IsWell}
use usbws_lws.Session.Write.Stream.{Keeps}
use usbws_lws.Session.Health.{check_session}
use usbws_lws.Session.Health.Verdict.{IsDead, IsDue, Ended, PingTried, check_session_lem}
use usbws_lws.Session.Callback.{Owner, Outcome, handle_session, on_event}
use usbws_lws.Session.Callback.Post.{After}
use usbws_lws.Session.Callback.Reasons.{Reason, health_check, send_request, needs_session}
use usbws_lws.Session.Callback.History.{IsFair, establishes, grant}
use usbws_lws.Session.Sender.Delivery.{handle_session-Keeps}
use usbws_lws.Session.Broadcast.{CallAll, CallsAll, event, check_all, request_send}
use usbws_lws.Session.Broadcast.Each.{All, Each, Ends, calls_lem}

-- A dead session is discontinued, pinged and closed; of the others one is pinged where that is due,
-- and left as it was where it is not.
abbrev pub Checked : {Hook : Type 0} → Io → Ctx Hook → Session → Session → Type 0
Checked io ctx s t =
    (IsDead io ctx s × Ended t × PingTried s t)
    ⊎ ((¬ IsDead io ctx s)
        × (t.cont ≡ true)
        × ((IsDue io ctx s × PingTried s t) ⊎ ((¬ IsDue io ctx s) × (t ≡ s))))

check_session-Checked :
    {Hook : Type 0} (io : Io) (ctx : Ctx Hook) (s : Session)
    → Checked io ctx s (check_session io ctx s).1
check_session-Checked io ctx s = elim (check_session_lem io ctx s) [
  | inl (dead, outcome) ↦ inl (dead, outcome.1, outcome.2)
  | inr (alive, outcome) ↦ inr (alive, outcome.1, outcome.2)
]

everyone : (conns : List Session) → All (λ _. Unit {0}) conns
everyone [] = tt
everyone (s ∷ conns) = (tt, everyone conns)

After-Ends :
    {State : Type 0} (P : Session → Type 0) (r : Outcome State)
    → After P r
    → Ends (λ _. Unit {0}) P r
After-Ends P none h = h
After-Ends P (some (_, none, _)) h = h
After-Ends P (some (_, some t, _)) h = (h, tt)

module _ (o : Owner) (all : CallAll (o.State)) (calls : CallsAll all) (ios : ℕ → Io) where
  -- A health check of a context reaches every connection and returns, the owner's state unchanged:
  -- it discontinues, pings and closes the sessions that are dead and no other; it pings those that
  -- were silent for the period with no ping under way; and it leaves the rest as they were.
  pub check_all-Checked :
      (conns : List Session) (st : o.State)
      → (ret : ℤ) × (after : List Session) × (check_all o all ios conns st ≡ some (ret, after, st))
        × Each (λ i. Checked (ios i) (o.ctx st)) 0 conns after
  unfolding check_all handle_session on_event needs_session
  check_all-Checked conns st =
      let (ret, after, u, e, each, same) =
        calls_lem (λ u. u ≡ st) (λ i. Checked (ios i) (o.ctx st)) (λ _. Unit {0})
          (event o all ios health_check)
          (λ i s u same _. rw same (check_session-Checked (ios i) (o.ctx st) s, refl)) all calls
          conns st refl (everyone conns) in
      (ret, after, e ∙ ap (λ (v : o.State). some (ret, after, v)) same, each)

  event-Keeps :
      (reason : Reason)
      → establishes reason ≡ false
      → grant reason ≡ 0
      → ((i : ℕ) → IsFair (ios i))
      → (conns : List Session) (st : o.State) → All IsWell conns
      → (ret : ℤ) × (after : List Session) × (u : o.State) × (all (event o all ios reason) conns st
          ≡ some (ret, after, u))
        × Each (λ _. Keeps 0) 0 conns after
  event-Keeps reason later none_granted fair conns st well =
      let (ret, after, u, e, each, _) =
        calls_lem (λ _. Unit {0}) (λ _. Keeps 0) IsWell (event o all ios reason)
          (λ i s u _ w. After-Ends (Keeps 0 s) _ (
            subst (λ g. After (Keeps g s) (event o all ios reason i s u)) none_granted
              (handle_session-Keeps o (ios i) reason [] s u (fair i) later w)))
          all calls conns st tt well in
      (ret, after, u, e, each)

  -- `usbws_request_send`, of one connection's sender, returns for all connections, and keeps the
  -- stream of each.
  pub request_send-Keeps :
      ((i : ℕ) → IsFair (ios i))
      → (conns : List Session) (st : o.State) → All IsWell conns
      → (ret : ℤ) × (after : List Session) × (u : o.State) × (request_send o all ios conns st
          ≡ some (ret, after, u))
        × Each (λ _. Keeps 0) 0 conns after
  unfolding request_send
  request_send-Keeps = event-Keeps send_request refl refl

  -- A health check, too, returns for all connections and keeps the stream of each.
  pub check_all-Keeps :
      ((i : ℕ) → IsFair (ios i))
      → (conns : List Session) (st : o.State) → All IsWell conns
      → (ret : ℤ) × (after : List Session) × (u : o.State) × (check_all o all ios conns st
          ≡ some (ret, after, u))
        × Each (λ _. Keeps 0) 0 conns after
  unfolding check_all
  check_all-Keeps = event-Keeps health_check refl refl
