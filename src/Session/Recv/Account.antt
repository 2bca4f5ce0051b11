-- ===== src/Session/Recv/Account.antt =====
-- How many bytes one round of `usbws_recv` takes, and where it may go past the caller's buffer.
use usbws_lws.Base.{
  ℕ, ◌+◌, ◌-◌, ◌*◌, ◌≤◌, ◌<◌, ◌≡◌, ◌⊎◌, inl, inr, refl, List, [], ◌∷◌, ◌++◌, arith, length,
  length-append, length-take, take, leb, ltb, Bool-cases,
}
use usbws_lws.Session.Recv.{Pass, recv_pass}

abbrev pub size : List (List ℕ) → ℕ
size [] = 0
size (b ∷ queue) = length b + size queue

-- The bytes that are queued and not yet taken.
abbrev pub avail : List (List ℕ) → ℕ → ℕ
avail [] offset = 0
avail (b ∷ queue) offset = (length b - offset) + size queue

pub avail-zero : (queue : List (List ℕ)) → avail queue 0 ≡ size queue
avail-zero [] = refl
avail-zero (b ∷ queue) = omega arith

length-copy : (n : ℕ) (b dbuf : List ℕ) → n ≤ length b → length (dbuf ++ take n b) ≡ length dbuf + n
length-copy n b dbuf h = omega (arith, length-append {0} dbuf (take n b), length-take {0} n b)

-- The turns of the inner loop at an entry `b`: it is used up; it ends the round, or not; or it is
-- longer than what is asked for, which always ends the round.
pub recv_pass_cases :
    (len : ℕ) (b : List ℕ) (queue : List (List ℕ)) (offset total : ℕ) (dbuf : List ℕ)
    → let rem = length b - offset in
      let here = recv_pass len (b ∷ queue) offset total dbuf in
      ((length b ≤ offset) × (here ≡ recv_pass len queue 0 total dbuf))
      ⊎ ((offset < length b)
          × (rem ≤ len)
          × (len ≤ total + rem)
          × (here ≡ record {
            queue = queue;
            offset = 0;
            total = total + rem;
            dbuf = dbuf ++ take rem b;
          }))
      ⊎ ((offset < length b)
          × (total + rem < len)
          × (here ≡ recv_pass len queue 0 (total + rem) (dbuf ++ take rem b)))
      ⊎ ((len < rem)
          × (here ≡ record {
            queue = b ∷ queue;
            offset = offset + len;
            total = total + len;
            dbuf = dbuf ++ take len b;
          }))
unfolding recv_pass
recv_pass_cases len b queue offset total dbuf = elim (Bool-cases (ltb len (length b - offset))) [
  | inl long ↦ inr (inr (inr (ground arith, ground arith)))
  | inr fits ↦ elim (Bool-cases (leb (length b) offset)) [
    | inl used ↦ inl (ground arith, rw used)
    | inr left ↦ elim (Bool-cases (leb len (total + (length b - offset)))) [
      | inl full ↦ inr (inl (ground arith, ground arith, ground arith, ground arith))
      | inr more ↦ inr (inr (inl (ground arith, ground arith, ground arith)))
    ]
  ]
]

-- What is taken from the queue is what is added to the total; the buffer grows by as much; and the
-- round ends with an empty queue or with as many bytes as were asked for, less than twice as many.
pub record Accounts (len : ℕ) (queue : List (List ℕ)) (offset total : ℕ) (dbuf : List ℕ) (p : Pass)
    : Type 0 where
  pub taken : p.total + avail p.queue p.offset ≡ total + avail queue offset
  pub copied : length dbuf ≡ total → length p.dbuf ≡ p.total
  pub stops : (p.queue ≡ []) ⊎ (len ≤ p.total)
  pub bounded : total < len → p.total + 1 ≤ 2 * len

-- One round of the inner loop of `usbws_recv`: what it takes from the queue is what it adds to the
-- total, the buffer grows by as much, and the round ends with an empty queue or with the bytes
-- asked for, less than twice as many.
pub recv_pass-Accounts :
    (len : ℕ) (queue : List (List ℕ)) (offset total : ℕ) (dbuf : List ℕ)
    → Accounts len queue offset total dbuf (recv_pass len queue offset total dbuf)
unfolding recv_pass
recv_pass-Accounts len [] offset total dbuf = record {
  taken = refl;
  copied = λ e. e;
  stops = inl refl;
  bounded = λ h. omega arith;
}
recv_pass-Accounts len (b ∷ queue) offset total dbuf =
    elim (recv_pass_cases len b queue offset total dbuf) [
      | inl (used, e) ↦ rw e (
          let h = recv_pass-Accounts len queue 0 total dbuf in
          record {
            taken = omega (arith, h.taken, avail-zero queue);
            copied = h.copied;
            stops = h.stops;
            bounded = h.bounded;
          })
      | inr (inl (left, short, full, e)) ↦ rw e (record {
        taken = omega (arith, avail-zero queue);
        copied = λ c. omega (arith, length-copy (length b - offset) b dbuf);
        stops = inr full;
        bounded = λ c. omega arith;
      })
      | inr (inr (inl (left, more, e))) ↦ rw e (
          let h =
            recv_pass-Accounts len queue 0 (total + (length b - offset))
              (dbuf ++ take (length b - offset) b) in
          record {
            taken = omega (arith, h.taken, avail-zero queue);
            copied = λ c. h.copied (omega (arith, length-copy (length b - offset) b dbuf));
            stops = h.stops;
            bounded = λ c. h.bounded more;
          })
      | inr (inr (inr (long, e))) ↦ rw e (record {
        taken = omega arith;
        copied = λ c. omega (arith, length-copy len b dbuf);
        stops = inr (omega arith);
        bounded = λ c. omega arith;
      })
    ]
