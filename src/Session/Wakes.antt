-- ===== src/Session/Wakes.antt =====
-- The signals of the operations of a session: whoever waits for a condition is woken when it may
-- hold.
pub mod Callback
use usbws_lws.Base.{
  ℕ, zero, suc, ◌+◌, ◌<◌, ◌≤◌, ◌≡◌, refl, subst, Bool, true, false, ◌&&◌, some, none, List, [], ◌∷◌,
  arith, ℤ, pos, if_intro, is_some, is_true, Bool-cases, Option, Option-cases, if◌then◌else◌, inl,
  inr,
}
use usbws_lws.Ctx.{Ctx}
use usbws_lws.Session.State.{
  Session, Io, Call, binary, read_at, signal_send, signal_recv, slept, log, discontinue, handled,
  close_me,
}
use usbws_lws.Session.Write.{
  send_data, after_write, send_ping_now, send_ping, handle_send_request, cancel_unless_sent,
  handle_writable, chunk_len, ◌>>=◌,
}
use usbws_lws.Session.Health.{check_session, end_session}
use usbws_lws.Session.Recv.{
  handle_recv, session_close, wait_recv, wait_recv_loop, is_empty, recv_pass, after_pass,
}
use usbws_lws.Session.Callback.{
  Owner, call_if_set, session_stop, received, receive_pong_event, on_event, handle_session,
}
use usbws_lws.Session.Callback.Post.{Post, PostCall, hook-Post, lift-Post}
use usbws_lws.Session.Callback.Meanwhile.{Meanwhile, still, passed, discontinued, requested}
use usbws_lws.Session.Callback.Reasons.{
  Reason, established, client_established, closed, client_connection_error, receive, client_receive,
  receive_pong, server_writeable, client_writeable, health_check, send_request, other,
  needs_session,
}
use usbws_lws.Session.Callback.History.{establishes}

abbrev pub send_signals : List Call → ℕ
send_signals [] = 0
send_signals (signal_send ∷ calls) = send_signals calls + 1
send_signals (_ ∷ calls) = send_signals calls

abbrev pub recv_signals : List Call → ℕ
recv_signals [] = 0
recv_signals (signal_recv ∷ calls) = recv_signals calls + 1
recv_signals (_ ∷ calls) = recv_signals calls

-- The tests of the two `while` loops around a `pthread_cond_wait`.
abbrev pub awaits_end : Session → Bool
awaits_end s = s.cont && is_some s.send_buf

abbrev pub awaits_frame : Session → Bool
awaits_frame s = s.cont && is_empty s.recv_queue

-- From `s` to `t`: where the test of a wait turns false, its condition has been signalled.
pub record Wakes (s t : Session) : Type 0 where
  pub sends : send_signals s.calls ≤ send_signals t.calls
  pub recvs : recv_signals s.calls ≤ recv_signals t.calls
  pub ended :
      awaits_end s ≡ true → awaits_end t ≡ false → send_signals s.calls < send_signals t.calls
  pub arrived :
      awaits_frame s ≡ true → awaits_frame t ≡ false → recv_signals s.calls < recv_signals t.calls

pub Wakes-same : (s : Session) → Wakes s s
Wakes-same s = record {
  sends = omega arith;
  recvs = omega arith;
  ended = λ on off. cc;
  arrived = λ on off. cc;
}

pub Wakes-trans : (s t u : Session) → Wakes s t → Wakes t u → Wakes s u
Wakes-trans s t u a b = record {
  sends = omega (arith, a.sends, b.sends);
  recvs = omega (arith, a.recvs, b.recvs);
  ended = λ on off. elim (Bool-cases (awaits_end t)) [
    | inl still_on ↦ omega (arith, a.sends, b.ended still_on off)
    | inr woken ↦ omega (arith, a.ended on woken, b.sends)
  ];
  arrived = λ on off. elim (Bool-cases (awaits_frame t)) [
    | inl still_on ↦ omega (arith, a.recvs, b.arrived still_on off)
    | inr woken ↦ omega (arith, a.arrived on woken, b.recvs)
  ];
}

-- A round on an empty queue leaves it empty.
emptied :
    (len : ℕ) (queue : List (List ℕ)) (offset total : ℕ) (dbuf : List ℕ)
    → is_empty queue ≡ true
    → is_empty (recv_pass len queue offset total dbuf).queue ≡ true
unfolding recv_pass
emptied len [] offset total dbuf e = refl
emptied len (b ∷ queue) offset total dbuf e = cc

module _ (s : Session) where
  pub discontinue-Wakes : Wakes s (discontinue s)
  unfolding discontinue
  discontinue-Wakes = ground arith

  pub session_close-Wakes : Wakes s (session_close s)
  unfolding session_close discontinue
  session_close-Wakes = ground arith

  pub slept-Wakes : Wakes s (log slept s)
  slept-Wakes = ground arith

  pub after_pass-Wakes :
      (len total : ℕ) (dbuf : List ℕ)
      → Wakes s (after_pass (recv_pass len s.recv_queue s.recv_offset total dbuf) s)
  after_pass-Wakes len total dbuf = record {
    sends = omega arith;
    recvs = omega arith;
    ended = λ on off. cc;
    arrived = λ on off. absurd (ground (arith, emptied len s.recv_queue s.recv_offset total dbuf));
  }

PostCall-bind :
    {A : Type 0} (P : Session → Type 0) (m : Option A) (k : A → Option (ℤ × Session))
    → ((a : A) → PostCall P (k a))
    → PostCall P (m >>= k)
PostCall-bind P none k h = tt
PostCall-bind P (some a) k h = h a

PostCall-map :
    {P Q : Session → Type 0}
    → ((t : Session) → P t → Q t)
    → (m : Option (ℤ × Session)) → PostCall P m
    → PostCall Q m
PostCall-map imp none h = tt
PostCall-map imp (some (_, t)) h = imp t h

module _ (io : Io) (s : Session) where
  after_write-Wakes : (chunk : List ℕ) (sent : ℤ) → Wakes s (after_write chunk sent s)
  unfolding after_write
  after_write-Wakes chunk sent = ground arith

  send_data-WakesCall : PostCall (Wakes s) (send_data io s)
  unfolding send_data
  send_data-WakesCall = PostCall-bind (Wakes s) s.send_buf _ (λ buf.
      PostCall-bind (Wakes s) (read_at buf s.send_offset (chunk_len s)) _
        (λ chunk. after_write-Wakes chunk (io.lws_write binary chunk)))

  send_ping_now-Wakes : Wakes s (send_ping_now io s).1
  unfolding send_ping_now
  send_ping_now-Wakes = ground arith

  pub received-Wakes : (frame : List ℕ) → Wakes s (received io frame s)
  unfolding received handled handle_recv
  received-Wakes frame = ground arith

  pub receive_pong_event-Wakes : Wakes s (receive_pong_event io s).1
  unfolding receive_pong_event handled close_me
  receive_pong_event-Wakes = ground arith

  pub check_session-Wakes : {Hook : Type 0} (ctx : Ctx Hook) → Wakes s (check_session io ctx s).1
  unfolding check_session end_session close_me send_ping send_ping_now discontinue
  check_session-Wakes ctx = ground arith

module _ (io : Io) (s : Session) where
  -- The flags of a session are in no test of a wait.
  flags_set :
      (writable pending : Bool) (t : Session)
      → Wakes (record s { writable = writable; ping_pending = pending }) t
      → Wakes s t
  flags_set writable pending t w = record {
    sends = w.sends;
    recvs = w.recvs;
    ended = w.ended;
    arrived = w.arrived;
  }

  pub handle_writable-WakesCall : PostCall (Wakes s) (handle_writable io s)
  unfolding handle_writable
  handle_writable-WakesCall =
      if_intro (PostCall (Wakes s)) (is_some s.send_buf)
        (λ _.
          PostCall-map (flags_set true false) (send_data io ready) (send_data-WakesCall io ready))
        (λ _.
          if_intro (PostCall (Wakes s)) s.ping_pending
            (λ _. flags_set true false (send_ping_now io ready).1 (send_ping_now-Wakes io ready))
            (λ _. flags_set true s.ping_pending _ (Wakes-same _)))
    where
      ready : Session
      ready = record s { writable = true; ping_pending = false }

  pub handle_send_request-WakesCall : PostCall (Wakes s) (handle_send_request io s)
  unfolding handle_send_request cancel_unless_sent
  handle_send_request-WakesCall =
      if_intro (PostCall (Wakes s)) (is_some s.send_buf)
        (λ _. cancelled (if s.writable then send_data io s else some (pos 0, s)) (
          if_intro (PostCall (Wakes s)) s.writable (λ _. send_data-WakesCall io s)
            (λ _. Wakes-same s)))
        (λ _. Wakes-same s)
    where
      cancelled :
          (m : Option (ℤ × Session))
          → PostCall (Wakes s) m
          → PostCall (Wakes s) (m >>= λ r. some (cancel_unless_sent r))
      cancelled none h = tt
      cancelled (some (ret, t)) h =
          if_intro (Wakes s) (is_true ret) (λ _. h)
            (λ _. record { sends = h.sends; recvs = h.recvs; ended = h.ended; arrived = h.arrived })
