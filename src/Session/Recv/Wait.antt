-- ===== src/Session/Recv/Wait.antt =====
-- Every call of `usbws_recv` returns, or waits for a wake-up that never comes; and what it returns.
use usbws_lws.Base.{
  ℕ, zero, suc, ◌+◌, ◌*◌, ◌≤◌, ◌<◌, ◌≡◌, ◌⊎◌, inl, inr, refl, true, false, not, ◌&&◌, ◌||◌, Bool,
  some, List, [], ◌∷◌, arith, ℤ, pos, length, leb, ltb, Option-cases, if_intro,
}
use usbws_lws.Session.State.{Session}
use usbws_lws.Session.Recv.{
  Others, Received, returned, blocked, out_of_fuel, is_empty, after_pass, recv_pass, wait_queue,
  interleave, recv_loop, recv,
}
use usbws_lws.Session.Recv.Account.{recv_pass-Accounts}

-- The result of a call that asks for `len` bytes: -1 of a discontinued session; or the number of
-- bytes put into the buffer, which is at least `len`, or more than zero if not all are asked for,
-- unless the session was discontinued; and less than twice `len`. The model's fuel suffices.
abbrev pub Answer : ℕ → Bool → Received → Type 0
Answer len all (returned (ℤ.pos n) dbuf s) =
    (length dbuf ≡ n)
    × ((s.cont ≡ false) ⊎ (len ≤ n) ⊎ ((all ≡ false) × (0 < n)))
    × ((len ≡ 0) ⊎ (n + 1 ≤ 2 * len))
Answer len all (returned (ℤ.negsuc n) dbuf s) = (n ≡ 0) × (s.cont ≡ false)
Answer len all blocked = Unit
Answer len all out_of_fuel = ⊥

-- After the wait the session is discontinued or has a frame, and no wake-up has been made up.
pub wait_queue_lem :
    (ws : List Others) (s t : Session) (vs : List Others)
    → wait_queue ws s ≡ some (t, vs)
    → ((t.cont ≡ false) ⊎ (is_empty t.recv_queue ≡ false)) × (length vs ≤ length ws)
unfolding wait_queue
wait_queue_lem [] s t vs e = ground arith
wait_queue_lem (w ∷ ws) s t vs e = ground (arith, wait_queue_lem ws (w s) t vs)

module _ (len : ℕ) (all : Bool) where
  -- What a round has done when the loop goes on: the queue is empty, and bytes are wanting.
  round_on :
      (queue : List (List ℕ)) (offset total : ℕ) (dbuf : List ℕ)
      → length dbuf ≡ total
      → (0 < len → total < len)
      → let p = recv_pass len queue offset total dbuf in
        ((not all && ltb 0 p.total) || leb len p.total) ≡ false
        → (p.queue ≡ []) × (length p.dbuf ≡ p.total) × (0 < len → p.total < len)
  round_on queue offset total dbuf copied open_ more =
      ground (arith, recv_pass-Accounts len queue offset total dbuf)

  round_off :
      (queue : List (List ℕ)) (offset total : ℕ) (dbuf : List ℕ) (s : Session)
      → length dbuf ≡ total
      → (0 < len → total < len)
      → let p = recv_pass len queue offset total dbuf in
        ((not all && ltb 0 p.total) || leb len p.total) ≡ true
        → Answer len all (returned (pos p.total) p.dbuf s)
  round_off queue offset total dbuf s copied open_ done =
      ground (arith, recv_pass-Accounts len queue offset total dbuf)

  -- With the queue empty and no wake-up to come the loop waits.
  recv_loop_waits :
      (fuel : ℕ) (total : ℕ) (dbuf : List ℕ) (s : Session)
      → s.cont ≡ true
      → s.recv_queue ≡ []
      → recv_loop (suc fuel) [] len all total dbuf s ≡ blocked
  unfolding recv_loop wait_queue
  recv_loop_waits fuel total dbuf s on empty = ground arith

  next-Answer :
      (fuel : ℕ) (vs : List Others) (total : ℕ) (dbuf : List ℕ) (s : Session)
      → s.cont ≡ true
      → s.recv_queue ≡ []
      → length vs < fuel
      → ((us : List Others) (v : Session)
          → length us + 1 < fuel
          → Answer len all (recv_loop fuel us len all total dbuf v))
      → let next = interleave vs s in
        Answer len all (recv_loop fuel next.1 len all total dbuf next.0)
  next-Answer zero vs total dbuf s on empty lt rec = absurd (omega arith)
  next-Answer (suc fuel) [] total dbuf s on empty lt rec =
      rw (recv_loop_waits fuel total dbuf s on empty) tt
  next-Answer (suc fuel) (w ∷ vs) total dbuf s on empty lt rec = rec vs (w s) (omega arith)

  recv_loop-Answer :
      (fuel : ℕ) (ws : List Others) (total : ℕ) (dbuf : List ℕ) (s : Session)
      → length ws + 1 < fuel
      → length dbuf ≡ total
      → (0 < len → total < len)
      → Answer len all (recv_loop fuel ws len all total dbuf s)
  unfolding recv_loop
  recv_loop-Answer zero ws total dbuf s enough copied open_ = absurd (omega arith)
  recv_loop-Answer (suc fuel) ws total dbuf s enough copied open_ =
      if_intro (Answer len all) s.cont
        (λ on. elim (Option-cases (wait_queue ws s)) [
          | inl e ↦ rw e tt
          | inr ((t, vs), e) ↦ rw e (
              if_intro (Answer len all) (not t.cont) (λ off. (refl, ground arith))
                (λ on'.
                  if_intro (Answer len all) _
                    (round_off t.recv_queue t.recv_offset total dbuf
                      (after_pass (recv_pass len t.recv_queue t.recv_offset total dbuf) t) copied
                      open_)
                    (λ more.
                      let (empty, copied', open') =
                        round_on t.recv_queue t.recv_offset total dbuf copied open_ more in
                      next-Answer fuel vs _ _ _ (ground arith) empty
                        (omega (arith, (wait_queue_lem ws s t vs e).1))
                        (λ us v lt. recv_loop-Answer fuel us _ _ v lt copied' open'))))
        ])
        (λ off. ground arith)

-- Whatever the other threads do before each of finitely many wake-ups, a call of `usbws_recv`
-- returns or waits for a further one. It returns -1 of a discontinued session only; or the number
-- of bytes in the buffer: at least `len`, or more than zero if not all are asked for, unless the
-- session is discontinued; and for a positive `len` less than twice `len`.
pub recv-Answer :
    (ws : List Others) (len : ℕ) (all : Bool) (s : Session) → Answer len all (recv ws len all s)
unfolding recv
recv-Answer ws len all s =
    recv_loop-Answer len all (suc (suc (length ws))) ws 0 [] s (omega arith) refl (λ h. h)
