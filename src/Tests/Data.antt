-- ===== src/Tests/Data.antt =====
-- The inputs that the tests share.
use usbws_lws.Base.{ℕ, refl, ◌∷◌, [], List, true, false, none, some, arith, ℤ, pos, length}
use usbws_lws.Session.State.{Session, Io, binary, written, callback_on_writable, signal_send}
use usbws_lws.Session.Write.Progress.{TakesAll}
use usbws_lws.Session.Callback.History.{IsFair}
use usbws_lws.Session.Callback.Meanwhile.{still}
use usbws_lws.Daemon.Hooks.{start_session, stop_session, Threads}

-- A connection that takes what it is given, 200 seconds into the run.
abbrev pub calm : Io
calm = record {
  now = pos 200;
  lws_write = λ kind bytes. pos (length bytes);
  frame_is_binary = true;
  memory_left = true;
  asleep = λ s. s;
}

pub calm-IsFair : IsFair calm
calm-IsFair = record { accepts = λ kind bytes. (refl, omega arith); asleep = λ s. still s }

pub calm-TakesAll : TakesAll calm
calm-TakesAll = λ kind bytes. refl

-- An established session that last heard of its peer at `stamp`, with queued frames.
abbrev pub session_at : ℤ → List (List ℕ) → Session
session_at stamp queue = record {
  cont = true;
  writable = false;
  pinged = false;
  ping_pending = false;
  stamp = stamp;
  send_buf = none;
  send_len = pos 0;
  send_offset = pos 0;
  recv_queue = queue;
  recv_offset = 0;
  tid = 5;
  calls = [];
}

abbrev pub message : List ℕ
message = 1 ∷ 2 ∷ 3 ∷ []

-- A session with a message to send.
abbrev pub sending : Session
sending = record (session_at (pos 190) []) {
  send_buf = some message;
  send_len = pos 3;
  send_offset = pos 0;
}

abbrev pub daemon_state : Threads
daemon_state = record {
  service_ctx = record {
    cont = true;
    ping_pong = pos 60;
    context = some 9;
    start = some start_session;
    stop = some stop_session;
  };
  created = pos 0;
  thread = 5;
  joined = [];
}

-- Opened by the daemon, which starts the thread 5.
abbrev pub opening : Session
opening = record (session_at (pos 200) []) { calls = callback_on_writable ∷ [] }

abbrev pub delivered : Session
delivered = record opening {
  send_offset = pos 3;
  calls =
      callback_on_writable
      ∷ signal_send
      ∷ written binary message (pos 3)
      ∷ callback_on_writable
      ∷ [];
}
