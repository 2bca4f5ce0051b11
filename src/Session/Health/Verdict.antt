-- ===== src/Session/Health/Verdict.antt =====
-- When a health check ends a session, what it leaves behind, and what it does to a live one.
use usbws_lws.Base.{
  ℕ, ◌+◌, ◌∙◌, ◌≡◌, ◌≢◌, ◌⊎◌, refl, inl, inr, true, false, List, ◌∷◌, [], arith, ℤ, pos, negsuc,
  ◌+ℤ◌, ◌-ℤ◌, ◌≤ℤ◌,
}
use usbws_lws.Ctx.{Ctx, ping_pong_timeout}
use usbws_lws.Session.State.{Session, Io, ping, Call, written, close_normal, discontinue, close_me}
use usbws_lws.Session.Write.{send_ping, send_ping_now}
use usbws_lws.Session.Write.Chunks.{IsWell}
use usbws_lws.Session.Write.Stream.{Keeps}
use usbws_lws.Session.Write.Steps.{Keeps-same, send_ping-Keeps}
use usbws_lws.Session.Health.{end_session, check_session}

pub pings : List Call → ℕ
pings [] = 0
pings (written ping _ _ ∷ cs) = pings cs + 1
pings (_ ∷ cs) = pings cs

-- A ping was written, or waits for the next writable callback.
abbrev pub PingTried : Session → Session → Type 0
PingTried s t = (pings t.calls ≡ pings s.calls + 1) ⊎ (t.ping_pending ≡ true)

-- The session is discontinued, and the last call asks for the close frame.
abbrev pub Ended : Session → Type 0
Ended t = (t.cont ≡ false) × ((cs : List Call) × (t.calls ≡ close_normal (b'!' ∷ []) ∷ cs))

send_ping_tried :
    (io : Io) (s : Session) → PingTried s (send_ping io s).1 × ((send_ping io s).1.cont ≡ s.cont)
unfolding send_ping send_ping_now pings
send_ping_tried io s = ground arith

end_session_lem :
    (io : Io) (s : Session)
    → s.cont ≡ false
    → let (ret, t) = end_session io s in (ret ≡ negsuc 0) × Ended t × PingTried s t
unfolding end_session close_me pings
end_session_lem io s e =
    let (tried, same) = send_ping_tried io s in (refl, (same ∙ e, (_, refl)), tried)

end_session-Keeps : (io : Io) (s : Session) → IsWell s → Keeps 0 s (end_session io s).1
unfolding end_session close_me
end_session-Keeps io s well =
    let h = send_ping-Keeps io s well in
    record { well = h.well; stream = h.stream; paced = h.paced; sized = h.sized; ends = h.ends }

module _ {Hook : Type 0} (io : Io) (ctx : Ctx Hook) (s : Session) where
  -- The session was discontinued, or nothing came for the ping-pong period and the time-out.
  abbrev pub IsDead : Type 0
  IsDead =
      (s.cont ≡ false)
      ⊎ ((ctx.ping_pong ≢ pos 0) × (ctx.ping_pong +ℤ ping_pong_timeout ≤ℤ io.now -ℤ s.stamp))

  -- Nothing came for the ping-pong period, and no ping is under way.
  abbrev pub IsDue : Type 0
  IsDue = (ctx.ping_pong ≢ pos 0) × (ctx.ping_pong ≤ℤ io.now -ℤ s.stamp) × (s.pinged ≡ false)

  -- The code's branches by these conditions.
  pub check_session_cases :
      ((s.cont ≡ false) × (check_session io ctx s ≡ end_session io s))
      ⊎ ((s.cont ≡ true) × IsDead × (check_session io ctx s ≡ end_session io (discontinue s)))
      ⊎ ((s.cont ≡ true)
          × ¬ IsDead
          × IsDue
          × (check_session io ctx s ≡ (pos 0, (send_ping io s).1)))
      ⊎ ((s.cont ≡ true) × ¬ IsDead × ¬ IsDue × (check_session io ctx s ≡ (pos 0, s)))
  unfolding check_session
  check_session_cases = ground arith

  -- A dead session is discontinued, pinged and closed, and libwebsockets is told so by -1.
  abbrev pub DeadOutcome : ℤ × Session → Type 0
  DeadOutcome (ret, t) = (ret ≡ negsuc 0) × Ended t × PingTried s t

  -- A live session goes on; it is pinged where that is due, and otherwise left as it was.
  abbrev pub AliveOutcome : ℤ × Session → Type 0
  AliveOutcome (ret, t) =
      (ret ≡ pos 0) × (t.cont ≡ true) × ((IsDue × PingTried s t) ⊎ (¬ IsDue × (t ≡ s)))

  -- `usbws_check_session` ends a session, with -1, if and only if it is dead: discontinued before,
  -- or silent for the ping-pong period and the time-out. Of a live one it pings it exactly where it
  -- is silent for the period with no ping under way, and changes nothing otherwise.
  pub check_session_lem :
      (IsDead × DeadOutcome (check_session io ctx s))
      ⊎ ((¬ IsDead) × AliveOutcome (check_session io ctx s))
  unfolding discontinue pings
  check_session_lem = elim check_session_cases [
    | inl (gone, e) ↦ inl (inl gone, rw e (end_session_lem io s gone))
    | inr (inl (on, dead, e)) ↦ inl (dead, rw e (end_session_lem io (discontinue s) refl))
    | inr (inr (inl (on, alive, due, e))) ↦
        let (tried, same) = send_ping_tried io s in
        inr (alive, rw e (refl, same ∙ on, inl (due, tried)))
    | inr (inr (inr (on, alive, idle, e))) ↦ inr (alive, rw e (refl, on, inr (idle, refl)))
  ]

  pub check_session-Keeps : IsWell s → Keeps 0 s (check_session io ctx s).1
  unfolding discontinue
  check_session-Keeps well = elim check_session_cases [
    | inl (_, e) ↦ rw e (end_session-Keeps io s well)
    | inr (inl (_, _, e)) ↦ rw e (
        let h = end_session-Keeps io (discontinue s) well in
        record {
          well = h.well;
          stream = h.stream;
          paced = h.paced;
          sized = h.sized;
          ends = h.ends;
        })
    | inr (inr (inl (_, _, _, e))) ↦ rw e (send_ping-Keeps io s well)
    | inr (inr (inr (_, _, _, e))) ↦ rw e (Keeps-same s well)
  ]
