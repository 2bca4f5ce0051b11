-- ===== src/Session/Life/Range.antt =====
-- The integers of a session that counts the bytes of a message stay small.
use usbws_lws.Base.{
  ℕ, ◌≤◌, ◌≡◌, refl, sym, ap, subst, ◌∙◌, true, some, List, arith, ℤ, pos, pos_part, length,
  is_some, inl, inr, Option-cases,
}
use usbws_lws.Session.State.{Session, Io, log, callback_on_writable, session_init}
use usbws_lws.Session.Write.Chunks.{IsWell, Fits}
use usbws_lws.Session.Write.Stream.{Keeps}
use usbws_lws.Session.Callback.{Owner}
use usbws_lws.Session.Callback.Post.{After}
use usbws_lws.Session.Callback.History.{grant}
use usbws_lws.Session.Sender.{send_begin}
use usbws_lws.Session.Sender.Delivery.{handle_session-Keeps}
use usbws_lws.Session.Life.{Life, opened, called, handed, read, opened-Keeps, Life-Stream}

-- Between 0 and `n`.
abbrev pub IsUpTo : ℕ → ℤ → Type 0
IsUpTo n z = (z ≡ pos (pos_part z)) × (pos_part z ≤ n)

-- The offset is between 0 and `n`, and so is the length of a pending message.
pub record InRange (n : ℕ) (s : Session) : Type 0 where
  pub offset : IsUpTo n s.send_offset
  pub len : is_some s.send_buf ≡ true → IsUpTo n s.send_len

-- No message that was handed over has more than `n` bytes.
unfoldable pub Within :
    {o : Owner} {old : Session} {sent : List ℕ} {g : ℕ} {s : Session} {st : o.State}
    → (n : ℕ) → Life o old sent g s st
    → Type 0
Within n (opened io reason frame ret st first e) = Unit
Within n (called io reason frame ret s st life fair later e) = Within n life
Within n (handed buf life idle) = (length buf ≤ n) × Within n life
Within n (read len total dbuf life) = Within n life

Keeps-InRange : (n g : ℕ) (s t : Session) → IsWell s → InRange n s → Keeps g s t → InRange n t
Keeps-InRange n g s t well r k = elim k.ends [
  | inr (gone, off, was) ↦ record {
    offset = subst (IsUpTo n) (sym off) (r.len was);
    len = λ pending. absurd (cc);
  }
  | inl (buf, len, off) ↦ elim (Option-cases s.send_buf) [
    | inl idle ↦ record {
      offset = subst (IsUpTo n) (sym (off idle)) r.offset;
      len = λ pending. absurd (cc);
    }
    | inr (b, held) ↦
        let small : IsUpTo n s.send_len = r.len (ap is_some held) in
        let at : Fits (some b) t.send_len t.send_offset =
          subst (λ m. Fits m t.send_len t.send_offset) (buf ∙ held) k.well in
        record {
          offset = (at.1, ground (arith, at, small, len));
          len = λ pending. subst (IsUpTo n) (sym len) small;
        }
  ]
]

module _ (o : Owner) (old : Session) where
  opened-InRange :
      (n : ℕ) (io : Io) (t : Session)
      → Keeps 0 (log callback_on_writable (session_init io old)) t
      → InRange n t
  unfolding session_init
  opened-InRange n io t =
      Keeps-InRange n 0 (log callback_on_writable (session_init io old)) t tt
        (record { offset = (refl, omega arith); len = λ pending. absurd (cc) })

  handed-InRange :
      (n : ℕ) (buf : List ℕ) (s : Session) → length buf ≤ n → InRange n (send_begin buf s)
  unfolding send_begin
  handed-InRange n buf s small = record {
    offset = (refl, omega arith);
    len = λ pending. (refl, small);
  }

  -- In the life of a session with an `lws_write` that does not fail, in which no message has more
  -- than `n` bytes: `send_offset` is between 0 and `n`, and while a message is pending so is
  -- `send_len`; so that neither `int` overflows if `n` is one.
  pub Life-InRange :
      (n : ℕ) {sent : List ℕ} {g : ℕ} {s : Session} {st : o.State}
      → (life : Life o old sent g s st) → Within n life
      → InRange n s
  unfolding Within
  Life-InRange n (opened io reason frame ret st {t} {st'} first e) within =
      opened-InRange n io t (opened-Keeps o old io reason frame ret t st st' first e)
  Life-InRange n (called io reason frame ret s st {sent} {g} {t} life fair later e) within =
      let well = (Life-Stream o old life).well in
      Keeps-InRange n (grant reason) s t well (Life-InRange n life within) (
        subst (After (Keeps (grant reason) s)) e
          (handle_session-Keeps o io reason frame s st fair later well))
  Life-InRange n (handed buf {sent} {g} {s} life idle) within = handed-InRange n buf s within.0
  Life-InRange n (read len total dbuf life) within =
      let r = Life-InRange n life within in record { offset = r.offset; len = r.len }
