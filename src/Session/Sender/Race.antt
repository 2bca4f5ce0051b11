-- ===== src/Session/Sender/Race.antt =====
-- The three assignments of `usbws_send` are made without a lock; what a writable callback does that
-- comes between them.
use usbws_lws.Base.{
  ℕ, suc, ◌+◌, ◌*◌, ◌<◌, ◌≤◌, ◌≡◌, refl, ap, none, some, List, [], ◌++◌, arith, pos, length, drop,
  ◌-ℤ◌, pos_part,
}
use usbws_lws.Session.State.{Session, Io}
use usbws_lws.Session.Write.{handle_writable, send_data, chunk_len}
use usbws_lws.Session.Write.Chunks.{wire}
use usbws_lws.Session.Write.Steps.{Ensures}
use usbws_lws.Session.Write.Progress.{TakesAll, All, IsIdle, writable_each, writable_each_sends}
use usbws_lws.Session.Callback.{Owner, handle_session, on_event}
use usbws_lws.Session.Callback.Reasons.{server_writeable, needs_session}
use usbws_lws.Session.Sender.{send_begin}

unfoldable pub assign_buf : List ℕ → Session → Session
assign_buf buf s = record s { send_buf = some buf }

unfoldable pub assign_len : List ℕ → Session → Session
assign_len buf s = record s { send_len = pos (length buf) }

unfoldable pub assign_offset : Session → Session
assign_offset s = record s { send_offset = pos 0 }

send_begin-assign :
    (buf : List ℕ) (s : Session)
    → send_begin buf s ≡ assign_offset (assign_len buf (assign_buf buf s))
unfolding send_begin assign_buf assign_len assign_offset
send_begin-assign buf s = refl

-- The length of the last message is 0 since it was sent, its offset is still its size. A writable
-- callback that comes right after the first assignment of the next message makes an undefined
-- access: it copies a negative number of bytes.
pub send_races :
    (o : Owner) (io : Io) (buf : List ℕ) (s : Session) (st : o.State) (size : ℕ)
    → s.send_len ≡ pos 0
    → s.send_offset ≡ pos (suc size)
    → handle_session o io server_writeable [] (some (assign_buf buf s)) st ≡ none
unfolding handle_session on_event needs_session handle_writable send_data chunk_len assign_buf ◌-ℤ◌
send_races o io buf s st size empty stale = ground arith

-- Writable callbacks that come between the second and the third assignment, as many as the rest of
-- the message needs, on a connection that takes what it is given, send the message without as many
-- bytes as the last message had, if it is no shorter; and the session then counts it as sent.
pub send_races_truncated :
    (ios : List Io) (buf : List ℕ) (s : Session) (size : ℕ)
    → All TakesAll ios
    → s.send_offset ≡ pos size
    → size ≤ length buf
    → 0 < length ios
    → length buf ≤ size + length ios * 1500
    → Ensures
        (IsIdle (wire s.calls ++ drop size buf))
        (writable_each ios (assign_len buf (assign_buf buf s)))
unfolding assign_buf assign_len
send_races_truncated ios buf s size all stale inside some_io enough = rw (ap pos_part stale) at (
    writable_each_sends ios (assign_len buf (assign_buf buf s)) buf all refl
      (refl, ground arith, ground arith) some_io (ground arith))
