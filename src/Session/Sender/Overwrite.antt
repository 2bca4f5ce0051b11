-- ===== src/Session/Sender/Overwrite.antt =====
-- `usbws_send` does not ask whether an earlier message is pending.
use usbws_lws.Base.{
  ℕ, ◌≡◌, ◌≢◌, refl, ap, sym, ◌∙◌, List, [], ◌∷◌, ◌++◌, arith, length, length-append,
}
use usbws_lws.Session.State.{Session}
use usbws_lws.Session.Write.Chunks.{wire, unsent}
use usbws_lws.Session.Callback.{Owner}
use usbws_lws.Session.Sender.{Sending, send_begin}
use usbws_lws.Session.Sender.Delivery.{Sending-Keeps}

no_bytes : (u : List ℕ) → length u ≡ 0 → u ≡ []
no_bytes [] e = refl
no_bytes (b ∷ u) e = absurd (omega arith)

longer : (w u buf : List ℕ) → u ≢ [] → w ++ buf ≢ (w ++ u) ++ buf
longer w u buf some_byte e = some_byte (
    no_bytes u (
      omega (
        arith,
        ap length e,
        length-append {0} w buf,
        length-append {0} (w ++ u) buf,
        length-append {0} w u,
      )))

-- Where `lws_write` does not fail, and no other message is handed over in a sleep of
-- `usbws_wait_recv`: a call of `usbws_send` while bytes of an earlier message are still to be sent
-- drops these bytes. From the call to its return, whatever callbacks run but those of the
-- connection's establishment, what the connection has accepted and what is pending is what it had
-- accepted before, followed by the new message, and never that with the rest of the earlier message
-- between.
pub send_overwrites :
    (o : Owner) {buf : List ℕ} {s0 : Session} {st0 : o.State} {s : Session} {st : o.State}
    → Sending o buf s0 st0 s st
    → unsent s0 ≢ []
    → (wire s.calls ++ unsent s ≡ wire s0.calls ++ buf)
      × (wire s.calls ++ unsent s ≢ (wire s0.calls ++ unsent s0) ++ buf)
unfolding send_begin
send_overwrites o {buf} {s0} {s} run pending =
    let (g, k) = Sending-Keeps o run in
    (k.stream, λ e. longer (wire s0.calls) (unsent s0) buf pending (sym k.stream ∙ e))
