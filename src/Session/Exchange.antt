-- ===== src/Session/Exchange.antt =====
-- Two peers: what one sends, the other receives.
use usbws_lws.Base.{
  ℕ, ◌≡◌, refl, sym, ap, ◌∙◌, true, List, [], ◌∷◌, ◌++◌, some, arith, ℤ, pos, length, length-append,
  inl, inr,
}
use usbws_lws.Session.State.{Session, Io}
use usbws_lws.Session.Write.Chunks.{wire}
use usbws_lws.Session.Recv.{returned, recv}
use usbws_lws.Session.Recv.Account.{size}
use usbws_lws.Session.Recv.Drain.{flatten, NoneEmpty, arrivals, recv_gathers}
use usbws_lws.Session.Callback.{Owner}
use usbws_lws.Session.Sender.{send_finish, Sending}
use usbws_lws.Session.Sender.Delivery.{send_delivers}

append-cancel : (xs ys zs : List ℕ) → xs ++ ys ≡ xs ++ zs → ys ≡ zs
append-cancel [] ys zs e = e
append-cancel (x ∷ xs) ys zs e = append-cancel xs ys zs (ground arith)

size-flatten : (bs : List (List ℕ)) → size bs ≡ length (flatten bs)
size-flatten [] = refl
size-flatten (b ∷ bs) = omega (arith, size-flatten bs, length-append {0} b (flatten bs))

-- A message makes the round trip, under these conditions. At the sender `lws_write` does not fail,
-- no other message is handed over in a sleep of `usbws_wait_recv`, and `usbws_send` returned for a
-- session that goes on. The network brings what the sender's connection accepted since the call to
-- the peer, in one or more binary frames, however they are cut but none of them empty. The peer's
-- session goes on, holds no frame and has the read offset 0; it calls `usbws_recv` for all of a
-- message of that length; then the frames come, one for each time that it waits, and memory is found
-- for each. Then `usbws_send` has returned the length, and `usbws_recv` returns it too, with the
-- message in the buffer and no frame left.
pub send_then_recv :
    (o : Owner) {buf : List ℕ} {s0 s : Session} {st0 st : o.State} {ret : ℤ} (io : Io) (b : List ℕ)
    (bs : List (List ℕ)) (peer : Session)
    → Sending o buf s0 st0 s st
    → send_finish s ≡ some ret
    → s.cont ≡ true
    → wire s.calls ≡ wire s0.calls ++ flatten (b ∷ bs)
    → NoneEmpty (b ∷ bs)
    → io.frame_is_binary ≡ true
    → io.memory_left ≡ true
    → peer.cont ≡ true
    → peer.recv_offset ≡ 0
    → peer.recv_queue ≡ []
    → (ret ≡ pos (length buf))
      × ((t : Session) × (recv (arrivals io (b ∷ bs)) (length buf) true peer
            ≡ returned (pos (length buf)) buf t)
          × (t.recv_queue ≡ []))
send_then_recv o {buf} {s0} {s} io b bs peer run e on cut filled binary memory on' at empty =
    elim (send_delivers o run e) [
      | inl (_, off) ↦ cc
      | inr (ret, _, accepted) ↦
          let same : flatten (b ∷ bs) ≡ buf =
            append-cancel (wire s0.calls) _ _ (sym cut ∙ accepted) in
          (
            ret,
            rw (size-flatten (b ∷ bs) ∙ ap length same, same) at
                (recv_gathers io binary memory b bs peer on' at empty filled),
          )
    ]
