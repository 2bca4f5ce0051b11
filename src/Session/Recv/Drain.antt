-- ===== src/Session/Recv/Drain.antt =====
-- Which bytes `usbws_recv` returns: those of whole frames come out right, in order; a frame that
-- is read in pieces, or that meets the end of the caller's buffer, does not.
use usbws_lws.Base.{
  ℕ, zero, suc, ◌+◌, ◌-◌, ◌<◌, ◌≡◌, refl, ap, ◌∙◌, true, false, not, ◌&&◌, ◌||◌, List, [], ◌∷◌,
  ◌++◌, append_assoc, append-nil, arith, pos, length, take, take_all, some, Bool, leb, ltb,
  if◌then◌else◌,
}
use usbws_lws.Session.State.{Session, Io}
use usbws_lws.Session.Recv.{
  Others, handle_recv, returned, is_empty, Pass, after_pass, recv_pass, wait_queue, interleave,
  recv_loop, recv,
}
use usbws_lws.Session.Recv.Account.{size, recv_pass_cases}

abbrev pub flatten : List (List ℕ) → List ℕ
flatten [] = []
flatten (b ∷ bs) = b ++ flatten bs

abbrev pub NoneEmpty : List (List ℕ) → Type 0
NoneEmpty [] = Unit
NoneEmpty (b ∷ bs) = (0 < length b) × NoneEmpty bs

-- A frame that is read whole.
whole : (b : List ℕ) → take (length b - 0) b ≡ b
whole b = take_all (length b - 0) b (omega arith)

pub turn_whole :
    (len : ℕ) (b : List ℕ) (queue : List (List ℕ)) (total : ℕ) (dbuf : List ℕ)
    → 0 < length b
    → total + length b < len
    → recv_pass len (b ∷ queue) 0 total dbuf ≡ recv_pass len queue 0 (total + length b) (dbuf ++ b)
turn_whole len b queue total dbuf some_bytes more =
    ground (arith, recv_pass_cases len b queue 0 total dbuf, whole b)

turn_last :
    (len : ℕ) (b : List ℕ) (queue : List (List ℕ)) (total : ℕ) (dbuf : List ℕ)
    → 0 < length b
    → total + length b ≡ len
    → recv_pass len (b ∷ queue) 0 total dbuf
      ≡ record { queue = queue; offset = 0; total = len; dbuf = dbuf ++ b }
turn_last len b queue total dbuf some_bytes done =
    ground (arith, recv_pass_cases len b queue 0 total dbuf, whole b)

-- Frames that fill what is asked for, from the first byte of the first.
recv_pass_exact :
    (len : ℕ) (b : List ℕ) (bs queue : List (List ℕ)) (total : ℕ) (dbuf : List ℕ)
    → NoneEmpty (b ∷ bs)
    → total + size (b ∷ bs) ≡ len
    → recv_pass len (b ∷ bs ++ queue) 0 total dbuf
      ≡ record { queue = queue; offset = 0; total = len; dbuf = dbuf ++ flatten (b ∷ bs) }
recv_pass_exact len b [] queue total dbuf filled e =
    rw append-nil (turn_last len b queue total dbuf filled.0 (omega arith))
recv_pass_exact len b (c ∷ bs) queue total dbuf filled e =
    turn_whole len b ((c ∷ bs) ++ queue) total dbuf filled.0 (omega (arith, filled.1.0))
    ∙ recv_pass_exact len c bs queue (total + length b) (dbuf ++ b) filled.1 (omega arith)
    ∙ ap (λ d. record { queue = queue; offset = 0; total = len; dbuf = d }) (append_assoc dbuf b _)

wait_queue_ready :
    (ws : List Others) (s : Session)
    → s.cont ≡ true
    → is_empty s.recv_queue ≡ false
    → wait_queue ws s ≡ some (s, ws)
unfolding wait_queue
wait_queue_ready [] s on ready = ground arith
wait_queue_ready (w ∷ ws) s on ready = ground arith

-- A round for which nothing has to be waited.
pub round_ready :
    (fuel : ℕ) (ws : List Others) (len : ℕ) (all : Bool) (total : ℕ) (dbuf : List ℕ) (s : Session)
    (p : Pass)
    → s.cont ≡ true
    → is_empty s.recv_queue ≡ false
    → recv_pass len s.recv_queue s.recv_offset total dbuf ≡ p
    → recv_loop (suc fuel) ws len all total dbuf s ≡ (
        let next = interleave ws (after_pass p s) in
        if (not all && ltb 0 p.total) || leb len p.total
        then returned (pos p.total) p.dbuf (after_pass p s)
        else recv_loop fuel next.1 len all p.total p.dbuf next.0)
unfolding recv_loop
round_ready fuel ws len all total dbuf s p on ready e =
    ground (arith, wait_queue_ready ws s on ready)

-- On a session that goes on and whose first frame is unread, a call that asks for as many bytes as
-- the first queued frames hold, none of them empty, returns their content, in order, and leaves
-- the frames behind them.
pub recv_exact :
    (ws : List Others) (all : Bool) (b : List ℕ) (bs queue : List (List ℕ)) (s : Session)
    → s.cont ≡ true
    → s.recv_offset ≡ 0
    → s.recv_queue ≡ b ∷ bs ++ queue
    → NoneEmpty (b ∷ bs)
    → recv ws (size (b ∷ bs)) all s
      ≡ returned
          (pos (size (b ∷ bs)))
          (flatten (b ∷ bs))
          (record s { recv_queue = queue; recv_offset = 0 })
unfolding recv
recv_exact ws all b bs queue s on at held filled =
    round_ready (suc (length ws)) ws len all 0 [] s p on (rw held)
      (rw (held, at) (recv_pass_exact len b bs queue 0 [] filled (omega arith)))
    ∙ ground arith
  where
    len : ℕ
    len = size (b ∷ bs)

    p : Pass
    p = record { queue = queue; offset = 0; total = len; dbuf = flatten (b ∷ bs) }

-- Frames that arrive while `usbws_recv` waits.
unfoldable pub arrivals : Io → List (List ℕ) → List Others
arrivals io [] = []
arrivals io (b ∷ bs) = (λ s. (handle_recv io b s).1) ∷ arrivals io bs

length-arrivals : (io : Io) (bs : List (List ℕ)) → length (arrivals io bs) ≡ length bs
unfolding arrivals
length-arrivals io [] = refl
length-arrivals io (b ∷ bs) = ap suc (length-arrivals io bs)

recv_loop_wakes :
    (fuel : ℕ) (w : Others) (ws : List Others) (len : ℕ) (s : Session)
    → s.cont ≡ true
    → is_empty s.recv_queue ≡ true
    → (w s).cont ≡ true
    → recv_loop (suc fuel) (w ∷ ws) len true 0 [] s ≡ recv_loop (suc fuel) ws len true 0 [] (w s)
unfolding recv_loop wait_queue
recv_loop_wakes fuel w ws len s on empty on' = ground arith

module _ (io : Io) (binary_frame : io.frame_is_binary ≡ true) (memory : io.memory_left ≡ true) where
  gather :
      (fuel : ℕ) (len : ℕ) (b : List ℕ) (bs : List (List ℕ)) (total : ℕ) (dbuf : List ℕ)
      (s : Session)
      → length bs < fuel
      → s.cont ≡ true
      → s.recv_offset ≡ 0
      → s.recv_queue ≡ b ∷ []
      → NoneEmpty (b ∷ bs)
      → total + size (b ∷ bs) ≡ len
      → (t : Session) × (recv_loop fuel (arrivals io bs) len true total dbuf s
          ≡ returned (pos len) (dbuf ++ flatten (b ∷ bs)) t)
        × (t.recv_queue ≡ [])
  unfolding arrivals handle_recv recv_pass
  gather zero len b bs total dbuf s enough on at held filled e = absurd (omega arith)
  gather (suc fuel) len b [] total dbuf s enough on at held filled e = (
    after_pass p s,
    round_ready fuel [] len true total dbuf s p on (rw held)
          (rw (held, at) (recv_pass_exact len b [] [] total dbuf filled e))
        ∙ ground arith,
    refl,
  )
    where
      p : Pass
      p = record { queue = []; offset = 0; total = len; dbuf = dbuf ++ flatten (b ∷ []) }
  gather (suc fuel) len b (c ∷ bs) total dbuf s enough on at held filled e =
      let (t, run, empty) =
        gather fuel len c bs (total + length b) (dbuf ++ b) (handle_recv io c (after_pass p s)).1
          (omega arith) (ground arith) (ground arith) (ground arith) filled.1 (omega arith) in
      (
        t,
        round_ready fuel (arrivals io (c ∷ bs)) len true total dbuf s p on (rw held)
              (rw (held, at) (turn_whole len b [] total dbuf filled.0 (omega (arith, filled.1.0))))
            ∙ ground arith
            ∙ run
            ∙ ap (λ d. returned (pos len) d t) (append_assoc dbuf b _),
        empty,
      )
    where
      p : Pass
      p = record { queue = []; offset = 0; total = total + length b; dbuf = dbuf ++ b }

  -- On a session that goes on and has no frame, a call that asks for all of `len` bytes, and waits
  -- while binary frames of that many bytes arrive, none of them empty and memory found for each,
  -- returns the content of all of them, in the order of their arrival, and leaves no frame.
  pub recv_gathers :
      (b : List ℕ) (bs : List (List ℕ)) (s : Session)
      → s.cont ≡ true
      → s.recv_offset ≡ 0
      → s.recv_queue ≡ []
      → NoneEmpty (b ∷ bs)
      → (t : Session) × (recv (arrivals io (b ∷ bs)) (size (b ∷ bs)) true s
          ≡ returned (pos (size (b ∷ bs))) (flatten (b ∷ bs)) t)
        × (t.recv_queue ≡ [])
  unfolding recv arrivals handle_recv
  recv_gathers b bs s on at held filled =
      let (t, run, empty) =
        gather (suc (suc (suc (length (arrivals io bs))))) (size (b ∷ bs)) b bs 0 []
          (handle_recv io b s).1 (omega (arith, length-arrivals io bs)) (ground arith)
          (ground arith) (ground arith) filled (omega arith) in
      (
        t,
        recv_loop_wakes (suc (suc (length (arrivals io bs)))) (λ v. (handle_recv io b v).1)
              (arrivals io bs) (size (b ∷ bs)) s on (ground arith) (ground arith)
            ∙ run,
        empty,
      )
