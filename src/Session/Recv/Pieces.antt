-- ===== src/Session/Recv/Pieces.antt =====
-- What `usbws_recv` does with a frame that is not read in one call: the two defects of its copy,
-- which starts at the first byte of a frame that is partly read, and which asks for `len` bytes
-- where some are in the buffer already.
use usbws_lws.Base.{
  ℕ, suc, ◌+◌, ◌≤◌, ◌<◌, ◌≡◌, ◌∙◌, true, Bool, List, [], ◌∷◌, arith, pos, length, take, min,
}
use usbws_lws.Session.State.{Session}
use usbws_lws.Session.Recv.{Others, returned, Pass, after_pass, recv_pass, recv}
use usbws_lws.Session.Recv.Account.{recv_pass_cases, recv_pass-Accounts}
use usbws_lws.Session.Recv.Drain.{round_ready, turn_whole}

pass_piece :
    (len : ℕ) (b : List ℕ) (queue : List (List ℕ)) (offset : ℕ)
    → 0 < len
    → offset + len ≤ length b
    → let p = recv_pass len (b ∷ queue) offset 0 [] in (p.total ≡ len) × (p.dbuf ≡ take len b)
pass_piece len b queue offset some_bytes inside =
    ground (arith, recv_pass_cases len b queue offset 0 [])

-- On a session that goes on, a call that asks for no more than is left of the first frame, and for
-- a byte at least, returns the first bytes of the frame, whatever part of it was read before.
pub recv_rereads :
    (ws : List Others) (len : ℕ) (all : Bool) (b : List ℕ) (queue : List (List ℕ)) (s : Session)
    → s.cont ≡ true
    → s.recv_queue ≡ b ∷ queue
    → 0 < len
    → s.recv_offset + len ≤ length b
    → (t : Session) × (recv ws len all s ≡ returned (pos len) (take len b) t)
unfolding recv
recv_rereads ws len all b queue s on held some_bytes inside = (
  after_pass p s,
  round_ready (suc (length ws)) ws len all 0 [] s p on (rw held) (rw held)
      ∙ ground (arith, pass_piece len b queue s.recv_offset),
)
  where
    p : Pass
    p = recv_pass len (b ∷ queue) s.recv_offset 0 []

pass_over :
    (len : ℕ) (b c : List ℕ) (queue : List (List ℕ))
    → 0 < length b
    → length b < len
    → len < length b + length c
    → let p = recv_pass len (b ∷ c ∷ queue) 0 0 [] in
      (p.total ≡ length b + min len (length c)) × (len < p.total) × (length p.dbuf ≡ p.total)
pass_over len b c queue some_bytes short long = ground (
  arith,
  turn_whole len b (c ∷ queue) 0 [] some_bytes (omega arith),
  recv_pass_cases len c queue 0 (0 + length b) b,
  recv_pass-Accounts len (b ∷ c ∷ queue) 0 0 [],
)

-- On a session that goes on, a call that asks for all of `len` bytes, where the first frame is unread,
-- not empty and shorter than `len`, and the second one longer than the rest of the caller's buffer,
-- copies past the buffer's end: it returns, and has copied, the first frame and up to `len` bytes of
-- the second, which are more than `len`.
pub recv_overflows :
    (ws : List Others) (len : ℕ) (b c : List ℕ) (queue : List (List ℕ)) (s : Session)
    → s.cont ≡ true
    → s.recv_offset ≡ 0
    → s.recv_queue ≡ b ∷ c ∷ queue
    → 0 < length b
    → length b < len
    → len < length b + length c
    → (t : Session) × (dbuf : List ℕ) × (recv ws len true s
        ≡ returned (pos (length b + min len (length c))) dbuf t)
      × (len < length dbuf)
unfolding recv
recv_overflows ws len b c queue s on at held some_bytes short long = (
  after_pass p s,
  p.dbuf,
  round_ready (suc (length ws)) ws len true 0 [] s p on (rw held) (rw (held, at))
      ∙ ground (arith, pass_over len b c queue),
  ground (arith, pass_over len b c queue),
)
  where
    p : Pass
    p = recv_pass len (b ∷ c ∷ queue) 0 0 []
