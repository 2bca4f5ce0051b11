-- ===== src/Session/Write/Steps.antt =====
-- Each operation that writes keeps the stream of bytes whole.
use usbws_lws.Base.{
  ℕ, ◌≡◌, refl, true, false, Option, none, some, List, [], ◌∷◌, arith, ℤ, pos, pos_part, is_true,
  ltb_ℤ, if_intro, Bool, inl, is_some, if◌then◌else◌,
}
use usbws_lws.Session.State.{Session, Io, binary, ping}
use usbws_lws.Session.Write.{
  send_data, send_ping_now, send_ping, handle_send_request, cancel_unless_sent, handle_writable,
  ◌>>=◌,
}
use usbws_lws.Session.Write.Chunks.{IsWell, Accepts, chunk_at, send_data_lem}
use usbws_lws.Session.Write.Stream.{Keeps, after_write-Keeps}

-- The call makes no undefined access, and ends in a state with the property.
abbrev pub Ensures : (Session → Type 0) → Option (ℤ × Session) → Type 0
Ensures P none = ⊥
Ensures P (some (_, t)) = P t

pub Ensures-bind :
    (P Q : Session → Type 0) (m : Option (ℤ × Session)) (k : Session → Option (ℤ × Session))
    → Ensures P m
    → ((t : Session) → P t → Ensures Q (k t))
    → Ensures Q (m >>= λ (_, t). k t)
Ensures-bind P Q none k h next = h
Ensures-bind P Q (some (ret, t)) k h next = next t h

abbrev made_writable : Session → Bool → Session
made_writable s pending = record s { writable = true; ping_pending = pending }

-- A writable callback grants one write.
Keeps-made_writable :
    (s t : Session) (pending : Bool) → Keeps 0 (made_writable s pending) t → Keeps 1 s t
Keeps-made_writable s t pending h = record {
  well = h.well;
  stream = h.stream;
  paced = omega (arith, h.paced);
  sized = h.sized;
  ends = h.ends;
}

Ensures-made_writable :
    (s : Session) (pending : Bool) (m : Option (ℤ × Session))
    → Ensures (Keeps 0 (made_writable s pending)) m
    → Ensures (Keeps 1 s) m
Ensures-made_writable s pending none h = h
Ensures-made_writable s pending (some (ret, t)) h = Keeps-made_writable s t pending h

is_some-eq : (o : Option (List ℕ)) → is_some o ≡ true → (buf : List ℕ) × (o ≡ some buf)
is_some-eq none e = cc
is_some-eq (some buf) e = (buf, refl)

cancel-Ensures :
    (s : Session) (m : Option (ℤ × Session))
    → Ensures (Keeps 0 s) m
    → Ensures (Keeps 0 s) (m >>= λ r. some (cancel_unless_sent r))
unfolding cancel_unless_sent
cancel-Ensures s none h = h
cancel-Ensures s (some (ret, t)) h =
    if_intro (Keeps 0 s) (is_true ret) (λ _. h)
      (λ _. record {
        well = h.well;
        stream = h.stream;
        paced = h.paced;
        sized = h.sized;
        ends = h.ends;
      })

pub Keeps-same : (s : Session) → IsWell s → Keeps 0 s s
Keeps-same s well = record {
  well = well;
  stream = refl;
  paced = omega arith;
  sized = λ sized. sized;
  ends = inl (refl, refl, λ _. refl);
}

module _ (io : Io) (s : Session) (well : IsWell s) where
  pub send_ping_now-Keeps : s.writable ≡ true → Keeps 0 s (send_ping_now io s).1
  unfolding send_ping_now
  send_ping_now-Keeps free =
      let pinged = ltb_ℤ (pos 0) (io.lws_write ping (b'?' ∷ [])) in
      record {
        well = if_intro (λ t. IsWell t) pinged (λ _. well) (λ _. well);
        stream = ground arith;
        paced = ground arith;
        sized = λ sized. ground arith;
        ends = inl (ground arith, ground arith, λ _. ground arith);
      }

  pending-Keeps :
      (r : ℤ × Session)
      → Keeps 0 s r.1
      → Keeps 0 s (if is_true r.0 then r.1 else record (r.1) { ping_pending = true })
  pending-Keeps (ret, t) h =
      if_intro (Keeps 0 s) (is_true ret) (λ _. h)
        (λ _. record {
          well = h.well;
          stream = h.stream;
          paced = h.paced;
          sized = h.sized;
          ends = h.ends;
        })

  -- A ping leaves the stream alone, and is a write only if the session is writable.
  pub send_ping-Keeps : Keeps 0 s (send_ping io s).1
  unfolding send_ping
  send_ping-Keeps = pending-Keeps (if s.writable then send_ping_now io s else (pos 0, s)) (
      if_intro (λ (r : ℤ × Session). Keeps 0 s r.1) s.writable send_ping_now-Keeps
        (λ _. Keeps-same s well))

module _ (io : Io) (accepts : Accepts io) where
  pub send_data-Keeps :
      (s : Session) (buf : List ℕ)
      → IsWell s
      → s.send_buf ≡ some buf
      → s.writable ≡ true
      → Ensures (Keeps 0 s) (send_data io s)
  send_data-Keeps s buf well held free =
      let a = accepts binary (chunk_at buf (pos_part s.send_offset)) in
      rw (send_data_lem s buf held well io, a.0) (after_write-Keeps s buf _ held well free a.1)

  pub handle_send_request-Keeps :
      (s : Session) → IsWell s → Ensures (Keeps 0 s) (handle_send_request io s)
  unfolding handle_send_request
  handle_send_request-Keeps s well =
      if_intro (Ensures (Keeps 0 s)) (is_some s.send_buf)
        (λ some_buf.
          let (buf, held) = is_some-eq s.send_buf some_buf in
          cancel-Ensures s (if s.writable then send_data io s else some (pos 0, s)) (
            if_intro (Ensures (Keeps 0 s)) s.writable (send_data-Keeps s buf well held)
              (λ _. Keeps-same s well)))
        (λ _. Keeps-same s well)

  pub handle_writable-Keeps : (s : Session) → IsWell s → Ensures (Keeps 1 s) (handle_writable io s)
  unfolding handle_writable
  handle_writable-Keeps s well =
      if_intro (Ensures (Keeps 1 s)) (is_some s.send_buf)
        (λ some_buf.
          let (buf, held) = is_some-eq s.send_buf some_buf in
          Ensures-made_writable s false (send_data io _) (send_data-Keeps _ buf well held refl))
        (λ _.
          if_intro (Ensures (Keeps 1 s)) s.ping_pending
            (λ _. Keeps-made_writable s _ false (send_ping_now-Keeps io _ well refl))
            (λ _. Keeps-made_writable s _ s.ping_pending (Keeps-same _ well)))
