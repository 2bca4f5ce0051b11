-- ===== src/Session/Callback/Meanwhile.antt =====
-- What the other threads do to a session while the service thread sleeps in `usbws_wait_recv`.
use usbws_lws.Base.{ℕ, ◌+◌, ◌≤◌, ◌≡◌, subst, ◌∙◌, some, List, arith, ℤ, inl}
use usbws_lws.Session.State.{Session, Io, discontinue}
use usbws_lws.Session.Write.{handle_send_request}
use usbws_lws.Session.Write.Chunks.{wire, credit, IsSized, IsWell, Accepts}
use usbws_lws.Session.Write.Stream.{Keeps}
use usbws_lws.Session.Write.Steps.{Keeps-same, Ensures, handle_send_request-Keeps}
use usbws_lws.Session.Recv.{recv_pass, after_pass}

-- From the first session to the second: rounds of `usbws_recv`, ends of the session, and requests to
-- send, which reach every session, in any order. No message is handed over.
pub data Meanwhile : Session → Session → Type 0 where
  still : (s : Session) → Meanwhile s s
  passed :
      (len total : ℕ) (dbuf : List ℕ) {s t : Session}
      → Meanwhile s t
      → Meanwhile s (after_pass (recv_pass len t.recv_queue t.recv_offset total dbuf) t)
  discontinued : {s t : Session} → Meanwhile s t → Meanwhile s (discontinue t)
  requested :
      (io : Io) (ret : ℤ) {s t u : Session}
      → Meanwhile s t
      → Accepts io
      → handle_send_request io t ≡ some (ret, u)
      → Meanwhile s u

pub Keeps-trans : (g h : ℕ) (s t u : Session) → Keeps g s t → Keeps h t u → Keeps (g + h) s u
Keeps-trans g h s t u a b = record {
  well = b.well;
  stream = b.stream ∙ a.stream;
  paced = omega (arith, a.paced, b.paced);
  sized = λ sized. b.sized (a.sized sized);
  ends = ground (arith, a.ends, b.ends);
}

-- What `Keeps` says of two sessions that differ in other fields than those of sending.
pub Keeps-aside :
    (s t : Session)
    → IsWell s
    → (t.send_buf ≡ s.send_buf) × (t.send_len ≡ s.send_len) × (t.send_offset ≡ s.send_offset)
    → wire t.calls ≡ wire s.calls
    → credit t ≤ credit s
    → (IsSized s.calls → IsSized t.calls)
    → Keeps 0 s t
Keeps-aside s t well (buf, len, off) wires credits sized = record {
  well = rw (buf, len, off) well;
  stream = rw (buf, off, wires);
  paced = omega arith;
  sized = sized;
  ends = inl (buf, len, λ _. off);
}

-- What other threads do meanwhile keeps the stream of bytes whole.
pub Meanwhile-Keeps : {s t : Session} → Meanwhile s t → IsWell s → Keeps 0 s t
unfolding discontinue
Meanwhile-Keeps (still s) well = Keeps-same s well
Meanwhile-Keeps (passed len total dbuf {s} {t} before) well =
    let k = Meanwhile-Keeps before well in
    record { well = k.well; stream = k.stream; paced = k.paced; sized = k.sized; ends = k.ends }
Meanwhile-Keeps (discontinued {s} {t} before) well =
    let k = Meanwhile-Keeps before well in
    record { well = k.well; stream = k.stream; paced = k.paced; sized = k.sized; ends = k.ends }
Meanwhile-Keeps (requested io ret {s} {t} {u} before accepts e) well =
    let k = Meanwhile-Keeps before well in
    Keeps-trans 0 0 s t u k
      (subst (Ensures (Keeps 0 t)) e (handle_send_request-Keeps io accepts t k.well))
