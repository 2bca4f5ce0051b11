-- ===== src/Session/State.antt =====
-- `struct usbws_session`, the replies of the platform during one call, and the functions that only
-- change flags. A `char` flag is a Boolean, an `int` an integer, a `time_t` seconds.
use usbws_lws.Base.{
  ℕ, ◌+◌, Bool, true, false, Option, none, some, List, [], ◌∷◌, ℤ, pos, leb, length, take, drop,
  if◌then◌else◌,
}

pub data WriteKind : Type 0 where
  binary ping : WriteKind

-- The calls that the code makes for a connection, with the bytes and the reply of a write.
pub data Call : Type 0 where
  written : WriteKind → List ℕ → ℤ → Call
  callback_on_writable : Call
  cancel_service : Call
  close_normal : List ℕ → Call
  signal_send signal_recv : Call
  slept : Call

-- `send_buf` is the caller's buffer, `none` for NULL; an entry of `recv_queue` is the content of a
-- `struct usbws_recv_buf`, whose `len` is its length; `tid` is 0 until a thread is created. The
-- locks are not fields: what the source does under a lock is one step here. `calls` holds the
-- calls made so far, the newest first.
pub record Session : Type 0 where
  pub cont : Bool
  pub writable : Bool
  pub pinged : Bool
  pub ping_pending : Bool
  pub stamp : ℤ
  pub send_buf : Option (List ℕ)
  pub send_len : ℤ
  pub send_offset : ℤ
  pub recv_queue : List (List ℕ)
  pub recv_offset : ℕ
  pub tid : ℕ
  pub calls : List Call

-- What the platform answers during one call: the time, the reply of `lws_write`, whether the frame
-- is binary, whether `malloc` finds memory, and what other threads do while this one sleeps.
pub record Io : Type 0 where
  pub now : ℤ
  pub lws_write : WriteKind → List ℕ → ℤ
  pub frame_is_binary : Bool
  pub memory_left : Bool
  pub asleep : Session → Session

abbrev pub log : Call → Session → Session
log c s = record s { calls = c ∷ s.calls }

-- `memcpy(p, buf + offset, n)`: the bytes read, `none` where they do not all lie in the buffer.
abbrev pub read_at : List ℕ → ℤ → ℤ → Option (List ℕ)
read_at buf (ℤ.pos off) (ℤ.pos n) =
    if leb (off + n) (length buf) then some (take n (drop off buf)) else none
read_at buf (ℤ.pos off) (ℤ.negsuc n) = none
read_at buf (ℤ.negsuc off) n = none

-- Into memory that held `old`, of which only the record of calls outlives it.
unfoldable pub session_init : Io → Session → Session
session_init io old = record {
  cont = true;
  writable = false;
  pinged = false;
  ping_pending = false;
  stamp = io.now;
  send_buf = none;
  send_len = pos 0;
  send_offset = pos 0;
  recv_queue = [];
  recv_offset = 0;
  tid = 0;
  calls = old.calls;
}

unfoldable pub discontinue : Session → Session
discontinue s = log signal_recv (log signal_send (record s { cont = false }))

-- `usbws_shutdown`
unfoldable pub shutdown : Session → Session
unfolding discontinue
shutdown s = discontinue s

unfoldable pub handled : Io → Session → Session
handled io s = record s { stamp = io.now }

unfoldable pub close_me : Session → Session
close_me s = log (close_normal (b'!' ∷ [])) s
