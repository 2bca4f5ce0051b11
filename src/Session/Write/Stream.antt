-- ===== src/Session/Write/Stream.antt =====
-- No byte is lost, doubled or put out of order by a write.
use usbws_lws.Base.{
  ℕ, ◌+◌, ◌≤◌, ◌≡◌, refl, ap, sym, ◌∙◌, ◌⊎◌, true, none, some, List, ◌++◌, arith, pos, ◌+ℤ◌,
  pos_part, length, take, drop, leb, append_assoc, take-append-drop, take-take, drop-drop, drop_all,
  Bool-cases, inl, inr, is_some, if◌then◌else◌, ◌≡⟨◌⟩◌, ◌∎,
}
use usbws_lws.Session.State.{Session}
use usbws_lws.Session.Write.{after_write}
use usbws_lws.Session.Write.Chunks.{
  wire, writes, credit, IsSized, unsent, IsWell, chunk_at, length-chunk_at, fits,
}

-- The message of `s` is still the one of `t`, or it has just been sent to its end.
abbrev pub Progress : Session → Session → Type 0
Progress s t =
    ((t.send_buf ≡ s.send_buf)
      × (t.send_len ≡ s.send_len)
      × (s.send_buf ≡ none → t.send_offset ≡ s.send_offset))
    ⊎ ((t.send_buf ≡ none) × (t.send_offset ≡ s.send_len) × (is_some s.send_buf ≡ true))

-- The step from `s` to `t` keeps the session well-formed and the stream of bytes whole: what is
-- accepted, followed by what is not yet sent. It makes at most `grant` writes more than the
-- session was ready for, and none that is too long.
pub record Keeps (grant : ℕ) (s t : Session) : Type 0 where
  pub well : IsWell t
  pub stream : wire t.calls ++ unsent t ≡ wire s.calls ++ unsent s
  pub paced : credit t ≤ credit s + grant
  pub sized : IsSized s.calls → IsSized t.calls
  pub ends : Progress s t

-- The stream around a write of `n` bytes at offset `k`.
splice :
    (w buf : List ℕ) (k n : ℕ)
    → n ≤ length (chunk_at buf k)
    → (w ++ take n (chunk_at buf k)) ++ drop (k + n) buf ≡ w ++ drop k buf
splice w buf k n h =
    (w ++ take n (chunk_at buf k)) ++ drop (k + n) buf
    ≡⟨ append_assoc w _ _ ⟩ w ++ (take n (chunk_at buf k) ++ drop (k + n) buf)
    ≡⟨ ap (λ b. w ++ (b ++ drop (k + n) buf))
        (take-take n _ (drop k buf) (omega (arith, length-chunk_at buf k))) ⟩
      w ++ (take n (drop k buf) ++ drop (k + n) buf)
    ≡⟨ ap (λ b. w ++ (take n (drop k buf) ++ b)) (sym (drop-drop k n (k + n) buf refl)) ⟩
      w ++ (take n (drop k buf) ++ drop n (drop k buf))
    ≡⟨ ap (◌++◌ w) (take-append-drop n (drop k buf)) ⟩ w ++ drop k buf ∎

-- The fields after a write that accepts `n` bytes.
pub record Wrote (s t : Session) (chunk : List ℕ) (size k n : ℕ) : Type 0 where
  pub offset : t.send_offset ≡ pos (k + n)
  pub buf : t.send_buf ≡ (if leb size (k + n) then none else s.send_buf)
  pub len : t.send_len ≡ (if leb size (k + n) then pos 0 else pos size)
  pub accepted : wire t.calls ≡ wire s.calls ++ take n chunk
  pub used : credit t ≡ writes s.calls + 1
  pub sized : length chunk ≤ 1500 → IsSized s.calls → IsSized t.calls

pub after_write-Wrote :
    (s : Session) (chunk : List ℕ) (size k n : ℕ)
    → s.send_len ≡ pos size
    → s.send_offset ≡ pos k
    → Wrote s (after_write chunk (pos n) s) chunk size k n
unfolding after_write ◌+ℤ◌
after_write-Wrote s chunk size k n e e' = record {
  offset = ground arith;
  buf = ground arith;
  len = ground arith;
  accepted = ground arith;
  used = ground arith;
  sized = ground arith;
}

Wrote-Keeps :
    (s t : Session) (buf : List ℕ) (k n : ℕ)
    → s.send_buf ≡ some buf
    → s.send_len ≡ pos (length buf)
    → s.send_offset ≡ pos k
    → k ≤ length buf
    → s.writable ≡ true
    → n ≤ length (chunk_at buf k)
    → Wrote s t (chunk_at buf k) (length buf) k n
    → Keeps 0 s t
Wrote-Keeps s t buf k n held size at inside free h w = record {
  well = kept.0;
  stream = kept.1;
  paced = rw free (omega (arith, w.used));
  sized = w.sized (omega (arith, length-chunk_at buf k));
  ends = ended;
}
  where
    ended : Progress s t
    ended = elim (Bool-cases (leb (length buf) (k + n))) [
      | inl done ↦
          let whole : k + n ≡ length buf = ground (arith, length-chunk_at buf k) in
          inr (w.buf ∙ rw done, w.offset ∙ ap pos whole ∙ sym size, rw held)
      | inr more ↦ inl (w.buf ∙ rw more, w.len ∙ rw more (sym size), λ e. cc)
    ]

    kept : IsWell t × (wire t.calls ++ unsent t ≡ wire s.calls ++ unsent s)
    kept = elim (Bool-cases (leb (length buf) (k + n))) [
      | inl done ↦ (
        rw (w.buf, done) tt,
        rw (w.accepted, w.buf, done, held, at)
            (ap (λ b. (wire s.calls ++ take n (chunk_at buf k)) ++ b)
                (sym (drop_all (k + n) buf (ground arith)))
              ∙ splice (wire s.calls) buf k n h),
      )
      | inr more ↦ (
        rw (w.buf, w.len, w.offset, more, held) (refl, refl, ground arith),
        rw (w.accepted, w.buf, w.offset, more, held, at) (splice (wire s.calls) buf k n h),
      )
    ]

pub after_write-Keeps :
    (s : Session) (buf : List ℕ) (n : ℕ)
    → s.send_buf ≡ some buf
    → IsWell s
    → s.writable ≡ true
    → n ≤ length (chunk_at buf (pos_part s.send_offset))
    → Keeps 0 s (after_write (chunk_at buf (pos_part s.send_offset)) (pos n) s)
after_write-Keeps s buf n held well free h =
    let at = fits s buf held well in
    Wrote-Keeps s _ buf (pos_part s.send_offset) n held at.0 at.1 at.2 free h
      (after_write-Wrote s _ (length buf) (pos_part s.send_offset) n at.0 at.1)
