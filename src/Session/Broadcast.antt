-- ===== src/Session/Broadcast.antt =====
-- `usbws_health_check` and `usbws_request_send` of src/usbws_ctx.c: one call of libwebsockets each,
-- which calls `usbws_handle_session` for the connections of the context.
pub mod Each
pub mod Reach
use usbws_lws.Base.{ℕ, ◌+◌, ◌≡◌, Option, none, some, List, [], ◌∷◌, ℤ}
use usbws_lws.Session.State.{Session, Io}
use usbws_lws.Session.Write.{◌>>=◌}
use usbws_lws.Session.Callback.{Owner, Outcome, handle_session}
use usbws_lws.Session.Callback.Reasons.{Reason, health_check, send_request}

-- `lws_callback_all_protocol`, from a callback for the connection at a position, the sessions of
-- the connections, and the owner's state.
abbrev pub CallAll : Type 0 → Type 0
CallAll State =
    (ℕ → Session → State → Outcome State) → List Session → State → Option (ℤ × List Session × State)

module _ {State : Type 0} where
  -- The callback for each connection, once, from the position `i` on.
  unfoldable pub visit :
      (ℕ → Session → State → Outcome State)
      → (i : ℕ) → List Session
      → State
      → Option (List Session × State)
  visit f i [] st = some ([], st)
  visit f i (s ∷ conns) st = do
    (_, left, st1) ← f i s st
    t ← left
    (rest, st2) ← visit f (i + 1) conns st1
    some (t ∷ rest, st2)

  -- As documented: "Callback all connections using the given protocol with the given reason".
  abbrev pub CallsAll : CallAll State → Type 0
  CallsAll all =
      (f : ℕ → Session → State → Outcome State) (conns : List Session) (st : State)
      → (ret : ℤ) × (all f conns st ≡ (visit f 0 conns st >>= λ (rest, u). some (ret, rest, u)))

module _ (o : Owner) (all : CallAll (o.State)) (ios : ℕ → Io) where
  abbrev pub event : Reason → ℕ → Session → o.State → Outcome (o.State)
  event reason i s st = handle_session o (ios i) reason [] (some s) st

  unfoldable pub check_all : List Session → o.State → Option (ℤ × List Session × o.State)
  check_all conns st = all (event health_check) conns st

  unfoldable pub request_send : List Session → o.State → Option (ℤ × List Session × o.State)
  request_send conns st = all (event send_request) conns st
