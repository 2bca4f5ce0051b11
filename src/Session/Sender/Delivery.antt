-- ===== src/Session/Sender/Delivery.antt =====
-- What a return of `usbws_send` means.
use usbws_lws.Base.{
  ℕ, ◌+◌, ◌≡◌, ◌⊎◌, refl, sym, ap, subst, ◌∙◌, true, false, ◌&&◌, none, some, List, [], ◌++◌, arith,
  ℤ, pos, negsuc, length, if_intro, append-nil,
}
use usbws_lws.Session.State.{Session, Io}
use usbws_lws.Session.Write.Chunks.{wire, unsent_of, IsWell}
use usbws_lws.Session.Write.Stream.{Keeps}
use usbws_lws.Session.Callback.{Owner, handle_session}
use usbws_lws.Session.Callback.Reasons.{Reason, send_request, needs_session}
use usbws_lws.Session.Callback.History.{IsFair, establishes, grant, on_event-Keeps}
use usbws_lws.Session.Callback.Meanwhile.{Keeps-trans}
use usbws_lws.Session.Callback.Post.{After}
use usbws_lws.Session.Sender.{send_begin, send_prologue, send_finish, Sending, begun, served}

module _ (o : Owner) where
  -- Where `lws_write` does not fail, and in a sleep of `usbws_wait_recv` the other threads receive,
  -- end the session and request sends, but hand over no message: no callback for a well-formed
  -- session, but those of its establishment, makes an undefined access, loses the session, or breaks
  -- what `Keeps` says: the
  -- session stays well-formed; the bytes on the wire, followed by those not yet sent, stay the same;
  -- a write is made only where a writable callback allows it, and has at most 1500 bytes.
  pub handle_session-Keeps :
      (io : Io) (reason : Reason) (frame : List ℕ) (s : Session) (st : o.State)
      → IsFair io
      → establishes reason ≡ false
      → IsWell s
      → After (Keeps (grant reason) s) (handle_session o io reason frame (some s) st)
  unfolding handle_session
  handle_session-Keeps io reason frame s st fair later well =
      if_intro (After (Keeps (grant reason) s)) (needs_session reason && false)
        (λ e. absurd (ground arith)) (λ _. on_event-Keeps o io reason frame s st fair later well)

  pub Sending-Keeps :
      {buf : List ℕ} {s0 : Session} {st0 : o.State} {s : Session} {st : o.State}
      → Sending o buf s0 st0 s st
      → (g : ℕ) × Keeps g (send_begin buf s0) s
  unfolding send_begin send_prologue
  Sending-Keeps {buf} {s0} {st0} (begun io fair e) = (
    0,
    subst (After (Keeps 0 (send_begin buf s0))) e (
        handle_session-Keeps io send_request [] (send_begin buf s0) st0 fair refl
          (refl, refl, omega arith)),
  )
  Sending-Keeps {buf} {s0} (served io reason frame {s} {t} {st} before fair later e) =
      let (g, k) = Sending-Keeps before in
      (
        g + grant reason,
        Keeps-trans g (grant reason) (send_begin buf s0) s t k (
            subst (After (Keeps (grant reason) s)) e
              (handle_session-Keeps io reason frame s st fair later k.well)),
      )

  pub finished :
      (buf : List ℕ) (s0 s : Session) (g : ℕ)
      → Keeps g (send_begin buf s0) s
      → s.send_buf ≡ none
      → (s.send_offset ≡ pos (length buf)) × (wire s.calls ≡ wire s0.calls ++ buf)
  unfolding send_begin
  finished buf s0 s g k e = (
    ground (arith, k.ends),
    sym (append-nil (wire s.calls))
        ∙ ap (λ b. wire s.calls ++ unsent_of b s.send_offset) (sym e)
        ∙ k.stream,
  )

  -- Where `lws_write` does not fail, whatever callbacks for the connection run meanwhile, but those
  -- of its establishment, and no other message is handed over in a sleep of `usbws_wait_recv`, when
  -- `usbws_send` returns it returns -1 for a session that
  -- has been discontinued, or the length of the message, and then the connection has accepted the
  -- bytes of the message behind those that it had before, and no other.
  pub send_delivers :
      {buf : List ℕ} {s0 : Session} {st0 : o.State} {s : Session} {st : o.State} {ret : ℤ}
      → Sending o buf s0 st0 s st
      → send_finish s ≡ some ret
      → ((ret ≡ negsuc 0) × (s.cont ≡ false))
        ⊎ ((ret ≡ pos (length buf)) × (s.cont ≡ true) × (wire s.calls ≡ wire s0.calls ++ buf))
  unfolding send_finish
  send_delivers {buf} {s0} {s} run e =
      let (g, k) = Sending-Keeps run in ground (arith, finished buf s0 s g k)
