-- ===== src/Session/Sender.antt =====
-- `usbws_send`, and the callbacks of the service thread that run while it waits.
pub mod Delivery
pub mod Race
pub mod Overwrite
pub mod Termination
use usbws_lws.Base.{
  ℕ, ◌≡◌, Bool, true, false, ◌&&◌, Option, none, some, List, [], ℤ, pos, negsuc, is_some, length,
  if◌then◌else◌,
}
use usbws_lws.Session.State.{Session, Io}
use usbws_lws.Session.Callback.{Owner, Outcome, handle_session}
use usbws_lws.Session.Callback.Reasons.{Reason, send_request}
use usbws_lws.Session.Callback.History.{IsFair, establishes}

-- The three assignments; `len` is the size of the buffer.
unfoldable pub send_begin : List ℕ → Session → Session
send_begin buf s = record s {
  send_buf = some buf;
  send_len = pos (length buf);
  send_offset = pos 0;
}

-- Up to the wait: `usbws_request_send` calls the callback in the sender's own thread.
unfoldable pub send_prologue : (o : Owner) → Io → List ℕ → Session → o.State → Outcome o.State
unfolding send_begin
send_prologue o io buf s st = handle_session o io send_request [] (some (send_begin buf s)) st

-- From the wait on: `none` while the sender waits.
unfoldable pub send_finish : Session → Option ℤ
send_finish s =
    if s.cont && is_some s.send_buf then none else some (if s.cont then s.send_offset else negsuc 0)

-- The states between a call of `usbws_send` with `buf` at `s0` and its return: after the prologue
-- come callbacks for the connection, in any number and order.
pub data Sending (o : Owner) (buf : List ℕ) (s0 : Session) (st0 : o.State)
    : Session → o.State → Type 0 where
  begun :
      (io : Io) {ret : ℤ} {t : Session} {st : o.State}
      → IsFair io
      → send_prologue o io buf s0 st0 ≡ some (ret, some t, st)
      → Sending o buf s0 st0 t st
  served :
      (io : Io) (reason : Reason) (frame : List ℕ) {ret : ℤ} {s t : Session} {st st' : o.State}
      → Sending o buf s0 st0 s st
      → IsFair io
      → establishes reason ≡ false
      → handle_session o io reason frame (some s) st ≡ some (ret, some t, st')
      → Sending o buf s0 st0 t st'
