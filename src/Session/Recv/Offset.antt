-- ===== src/Session/Recv/Offset.antt =====
-- Where `recv_offset` points.
use usbws_lws.Base.{
  ℕ, ◌+◌, ◌-◌, ◌≤◌, ◌≡◌, refl, sym, ap, subst, List, [], ◌∷◌, ◌++◌, arith, length, take, inl, inr,
}
use usbws_lws.Session.Recv.{recv_pass}
use usbws_lws.Session.Recv.Account.{size, avail, avail-zero, recv_pass_cases}

-- The offset lies in the first entry of the queue, or at its end; without an entry it is 0.
abbrev pub Inside : List (List ℕ) → ℕ → Type 0
Inside [] offset = offset ≡ 0
Inside (b ∷ queue) offset = offset ≤ length b

pub Inside-zero : (queue : List (List ℕ)) → Inside queue 0
Inside-zero [] = refl
Inside-zero (b ∷ queue) = omega arith

pub size-append : (q r : List (List ℕ)) → size (q ++ r) ≡ size q + size r
size-append [] r = omega arith
size-append (b ∷ q) r = omega (arith, size-append q r)

pub avail-append :
    (queue more : List (List ℕ)) (offset : ℕ)
    → Inside queue offset
    → avail (queue ++ more) offset ≡ avail queue offset + size more
avail-append [] more offset h = omega (arith, ap (avail more) h, avail-zero more)
avail-append (b ∷ queue) more offset h = omega (arith, size-append queue more)

pub Inside-append :
    (queue more : List (List ℕ)) (offset : ℕ) → Inside queue offset → Inside (queue ++ more) offset
Inside-append [] more offset h = subst (Inside more) (sym h) (Inside-zero more)
Inside-append (b ∷ queue) more offset h = h

pub recv_pass-Inside :
    (len : ℕ) (queue : List (List ℕ)) (offset total : ℕ) (dbuf : List ℕ)
    → Inside queue offset
    → let p = recv_pass len queue offset total dbuf in Inside p.queue p.offset
unfolding recv_pass
recv_pass-Inside len [] offset total dbuf h = h
recv_pass-Inside len (b ∷ queue) offset total dbuf h =
    elim (recv_pass_cases len b queue offset total dbuf) [
      | inl (used, e) ↦ rw e (recv_pass-Inside len queue 0 total dbuf (Inside-zero queue))
      | inr (inl (left, short, full, e)) ↦ rw e (Inside-zero queue)
      | inr (inr (inl (left, more, e))) ↦ rw e (
          recv_pass-Inside len queue 0 (total + (length b - offset))
            (dbuf ++ take (length b - offset) b) (Inside-zero queue))
      | inr (inr (inr (long, e))) ↦ rw e (omega arith)
    ]

-- A round takes no byte back, and the offset grows by no more than it takes.
pub recv_pass-grows :
    (len : ℕ) (queue : List (List ℕ)) (offset total : ℕ) (dbuf : List ℕ)
    → let p = recv_pass len queue offset total dbuf in
      (total ≤ p.total) × (p.offset + total ≤ offset + p.total)
unfolding recv_pass
recv_pass-grows len [] offset total dbuf = (omega arith, omega arith)
recv_pass-grows len (b ∷ queue) offset total dbuf =
    elim (recv_pass_cases len b queue offset total dbuf) [
      | inl (used, e) ↦
          rw e (
            let (more, near) = recv_pass-grows len queue 0 total dbuf in
            (more, omega (arith, near)))
      | inr (inl (left, short, full, e)) ↦ rw e (omega arith, omega arith)
      | inr (inr (inl (left, some_more, e))) ↦ rw e (
          let (more, near) =
            recv_pass-grows len queue 0 (total + (length b - offset))
              (dbuf ++ take (length b - offset) b) in
          (omega (arith, more), omega (arith, near)))
      | inr (inr (inr (long, e))) ↦ rw e (omega arith, omega arith)
    ]
