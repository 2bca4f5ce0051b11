-- ===== src/Session/Write.antt =====
-- Sending: data in chunks of at most 1500 bytes, and pings. `none` is an access that C does not
-- define, here a read outside the caller's buffer.
pub mod Chunks
pub mod Stream
pub mod Steps
pub mod Progress
pub mod Failure
use usbws_lws.Base.{
  ℕ, Bool, true, false, not, Option, none, some, List, [], ◌∷◌, ℤ, pos, ◌+ℤ◌, ◌-ℤ◌, leb_ℤ, ltb_ℤ,
  is_true, is_some, if◌then◌else◌,
}
use usbws_lws.Session.State.{
  Session, Io, binary, ping, written, callback_on_writable, cancel_service, signal_send, log,
  read_at,
}

abbrev pub send_content : ℤ
send_content = pos 1500

infixl 5 ◌>>=◌
abbrev pub ◌>>=◌ {ℓ κ} : {A : Type ℓ} {B : Type κ} → Option A → (A → Option B) → Option B
none >>= f = none
some a >>= f = f a

-- The number of bytes that the next write takes.
unfoldable pub chunk_len : Session → ℤ
chunk_len s =
    let bytes = s.send_len -ℤ s.send_offset in
    if ltb_ℤ send_content bytes then send_content else bytes

-- What follows a write of `chunk` that returned `sent`.
unfoldable pub after_write : List ℕ → ℤ → Session → Session
after_write chunk sent s =
    let s1 = log (written binary chunk sent) (record s { send_offset = s.send_offset +ℤ sent }) in
    let s2 =
      if leb_ℤ s1.send_len s1.send_offset
      then log signal_send (record s1 { send_buf = none; send_len = pos 0 })
      else s1 in
    log callback_on_writable (record s2 { writable = false })

-- `__send_data`
unfoldable pub send_data : Io → Session → Option (ℤ × Session)
unfolding chunk_len after_write
send_data io s = do
  buf ← s.send_buf
  chunk ← read_at buf s.send_offset (chunk_len s)
  some (io.lws_write binary chunk, after_write chunk (io.lws_write binary chunk) s)

-- The service is cancelled when nothing was sent.
unfoldable pub cancel_unless_sent : ℤ × Session → ℤ × Session
cancel_unless_sent (ret, s) = (ret, if is_true ret then s else log cancel_service s)

-- `usbws_handle_send_request`
unfoldable pub handle_send_request : Io → Session → Option (ℤ × Session)
unfolding cancel_unless_sent
handle_send_request io s =
    if is_some s.send_buf
    then (do
      sent ← if s.writable then send_data io s else some (pos 0, s)
      some (cancel_unless_sent sent))
    else some (pos 0, s)

-- `__send_ping`
unfoldable pub send_ping_now : Io → Session → ℤ × Session
send_ping_now io s =
    let sent = io.lws_write ping (b'?' ∷ []) in
    let s1 = log (written ping (b'?' ∷ []) sent) s in
    let s2 = if ltb_ℤ (pos 0) sent then record s1 { pinged = true } else s1 in
    (sent, log callback_on_writable (record s2 { writable = false }))

-- `usbws_send_ping`
unfoldable pub send_ping : Io → Session → ℤ × Session
send_ping io s =
    let (ret, t) = if s.writable then send_ping_now io s else (pos 0, s) in
    (ret, if is_true ret then t else record t { ping_pending = true })

-- `usbws_handle_writable`
unfoldable pub handle_writable : Io → Session → Option (ℤ × Session)
handle_writable io s =
    let s1 = record s { writable = true } in
    if is_some s.send_buf
    then send_data io (record s1 { ping_pending = false })
    else if s.ping_pending
    then some (send_ping_now io (record s1 { ping_pending = false }))
    else some (pos 0, s1)
