-- ===== src/Client/Wake.antt =====
-- What the start and the end of a session tell the sender that waits and the client's thread.
use usbws_lws.Base.{
  ◌≡◌, refl, true, false, none, some, List, [], ◌∷◌, arith, ℤ, pos, negsuc, ltb_ℤ, is_true, ℕ,
  if◌then◌else◌, Option,
}
use usbws_lws.Ctx.{ctx_stop, ctx_stopped, ctx_destroy}
use usbws_lws.Session.State.{Session, Io, log, callback_on_writable, session_init}
use usbws_lws.Session.Callback.{handle_session, on_event, session_start, session_stop, call_if_set}
use usbws_lws.Session.Callback.Reasons.{client_established, client_connection_error, needs_session}
use usbws_lws.Client.State.{Client, start_session, stop_session}
use usbws_lws.Client.Start.{
  Compiled, notify_start_val, notify_start, notify_error, client_start_session, client_stop_session,
  wait_start, thread_end, Turn, client_thread, hook_call, client_owner,
}

wait_start_over :
    (ws : List (Client → Client)) (c : Client) (ret : ℤ)
    → is_true c.started ≡ true
    → (if ltb_ℤ c.started (pos 0) then negsuc 0 else pos 0) ≡ ret
    → wait_start ws c ≡ some (ret, c)
unfolding wait_start
wait_start_over [] c ret started e = ground arith
wait_start_over (w ∷ ws) c ret started e = ground arith

thread_stopped :
    (ts : List Turn) (c : Client) → c.ctx.cont ≡ false → client_thread ts c ≡ some (thread_end c)
unfolding client_thread ctx_stopped
thread_stopped [] c off = ground arith
thread_stopped (t ∷ ts) c off = ground arith

-- Where a `char` holds 1 and the client's hook is set, the callback of an established connection
-- ends the wait of `usbws_client_open`, with success, and the client knows the connection.
pub established_wakes :
    (k : Compiled) (wsi : ℕ) (io : Io) (frame : List ℕ) (s : Session) (c : Client)
    (ws : List (Client → Client))
    → k.to_char (pos 1) ≡ pos 1
    → c.ctx.start ≡ some start_session
    → (t : Session) × (d : Client) × (handle_session
          (client_owner k wsi)
          io
          client_established
          frame
          (some s)
          c
        ≡ some (k.left_behind, some t, d))
      × (d.wsi ≡ some wsi)
      × (wait_start ws d ≡ some (pos 0, d))
unfolding handle_session on_event session_start call_if_set needs_session hook_call
    client_start_session notify_start notify_start_val
established_wakes k wsi io frame s c ws one hooked =
    let t = log callback_on_writable (session_init io s) in
    let d = (client_start_session k wsi c).1 in
    (t, d, ground arith, ground arith, wait_start_over ws d (pos 0) (ground arith) (ground arith))

-- Where a `char` holds -1 and the client's hook is set, the callback of a connection that cannot be
-- made, with a session or without, ends the wait of `usbws_client_open` with -1; and the client's
-- thread then ends without another call of the service, discontinues no session, and destroys the
-- context.
pub connection_error_ends :
    (k : Compiled) (wsi : ℕ) (io : Io) (frame : List ℕ) (session : Option Session) (c : Client)
    (ws : List (Client → Client)) (ts : List Turn)
    → k.to_char (negsuc 0) ≡ negsuc 0
    → c.ctx.stop ≡ some stop_session
    → (d e : Client) × (handle_session
          (client_owner k wsi)
          io
          client_connection_error
          frame
          session
          c
        ≡ some (k.left_behind, session, d))
      × (wait_start ws d ≡ some (negsuc 0, d))
      × (client_thread ts d ≡ some (none, e))
      × (e.ctx.context ≡ none)
unfolding handle_session on_event session_stop call_if_set needs_session hook_call
    client_stop_session notify_error notify_start_val ctx_stop ctx_stopped ctx_destroy
connection_error_ends k wsi io frame session c ws ts signed hooked =
    let d = (client_stop_session k c).1 in
    (
      d,
      (thread_end d).1,
      ground arith,
      wait_start_over ws d (negsuc 0) (ground arith) (ground arith),
      thread_stopped ts d refl,
      ground arith,
    )
