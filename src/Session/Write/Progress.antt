-- ===== src/Session/Write/Progress.antt =====
-- A message goes out: how many writable callbacks its sender waits for.
use usbws_lws.Base.{
  ℕ, ◌+◌, ◌*◌, ◌≤◌, ◌<◌, ◌≡◌, refl, ◌∙◌, ap, sym, true, false, Option, none, some, List, [], ◌∷◌,
  ◌++◌, arith, ℤ, pos, pos_part, length, leb, if_intro, is_some, append-nil, Bool-cases, inl, inr,
  ◌⊎◌, ◌∙◌,
}
use usbws_lws.Session.State.{Session, Io, WriteKind, binary}
use usbws_lws.Session.Write.{after_write, handle_writable, send_ping_now, ◌>>=◌}
use usbws_lws.Session.Write.Chunks.{
  wire, unsent, unsent_of, IsWell, Accepts, chunk_at, length-chunk_at, fits, send_data_lem,
}
use usbws_lws.Session.Write.Stream.{Wrote, after_write-Wrote, Keeps}
use usbws_lws.Session.Write.Steps.{Ensures, Ensures-bind, handle_writable-Keeps}

-- A connection that takes all that it is given.
abbrev pub TakesAll : Io → Type 0
TakesAll io = (k : WriteKind) (bytes : List ℕ) → io.lws_write k bytes ≡ pos (length bytes)

pub TakesAll-Accepts : (io : Io) → TakesAll io → Accepts io
TakesAll-Accepts io all k bytes = rw (all k bytes) (refl, omega arith)

-- The writable callbacks of a connection, one after another.
unfoldable pub writable_each : List Io → Session → Option (ℤ × Session)
writable_each [] s = some (pos 0, s)
writable_each (io ∷ ios) s = handle_writable io s >>= λ (_, t). writable_each ios t

module _ (io : Io) (all : TakesAll io) (s : Session) (buf : List ℕ) (held : s.send_buf ≡ some buf)
    (well : IsWell s) where
  abbrev off : ℕ
  off = pos_part s.send_offset

  abbrev chunk : List ℕ
  chunk = chunk_at buf off

  abbrev ready : Session
  ready = record s { writable = true; ping_pending = false }

  abbrev next : Session
  next = after_write chunk (pos (length chunk)) ready

  next-Wrote : Wrote ready next chunk (length buf) off (length chunk)
  next-Wrote =
      let at = fits s buf held well in
      after_write-Wrote ready chunk (length buf) off (length chunk) at.0 at.1

  writable_next : handle_writable io s ≡ some (pos (length chunk), next)
  unfolding handle_writable
  writable_next =
      if_intro (λ r. r ≡ some (pos (length chunk), next)) (is_some s.send_buf)
        (λ _.
          send_data_lem ready buf held well io
          ∙ ap (λ sent. some (sent, after_write chunk sent ready)) (all binary chunk))
        (λ e. absurd (ground arith))

  -- One callback takes 1500 bytes off a message, or the rest.
  next_cases :
      (next.send_buf ≡ none)
      ⊎ ((next.send_buf ≡ some buf)
          × (next.send_offset ≡ pos (off + 1500))
          × (off + 1500 < length buf))
  next_cases = elim (Bool-cases (leb (length buf) (off + length chunk))) [
    | inl done ↦ inl (next-Wrote.buf ∙ rw done)
    | inr more ↦ inr (
      next-Wrote.buf ∙ rw more held,
      next-Wrote.offset ∙ ap pos (ground (arith, length-chunk_at buf off)),
      ground (arith, length-chunk_at buf off),
    )
  ]

  next-Keeps : Keeps 1 s next
  next-Keeps = rw writable_next at (handle_writable-Keeps io (TakesAll-Accepts io all) s well)

-- No message is pending, and the connection has accepted the bytes `ws`.
abbrev pub IsIdle : List ℕ → Session → Type 0
IsIdle ws t = (t.send_buf ≡ none) × (wire t.calls ≡ ws)

writable-IsIdle :
    (io : Io) (s : Session) (ws : List ℕ) → IsIdle ws s → Ensures (IsIdle ws) (handle_writable io s)
unfolding handle_writable send_ping_now
writable-IsIdle io s ws e = ground arith

pub writable_each-IsIdle :
    (ios : List Io) (s : Session) (ws : List ℕ)
    → IsIdle ws s
    → Ensures (IsIdle ws) (writable_each ios s)
unfolding writable_each
writable_each-IsIdle [] s ws e = e
writable_each-IsIdle (io ∷ ios) s ws e =
    Ensures-bind (IsIdle ws) (IsIdle ws) (handle_writable io s) (writable_each ios)
      (writable-IsIdle io s ws e) (λ t. writable_each-IsIdle ios t ws)

pub idle_stream : (t : Session) → t.send_buf ≡ none → wire t.calls ++ unsent t ≡ wire t.calls
idle_stream t e = ap (λ b. wire t.calls ++ unsent_of b t.send_offset) e ∙ append-nil (wire t.calls)

abbrev pub All : (Io → Type 0) → List Io → Type 0
All P [] = Unit
All P (io ∷ ios) = P io × All P ios

-- The unsent rest of a pending message is on the wire, whole and in order, behind what was there
-- before, after as many writable callbacks as it has chunks of 1500 bytes, at least one, of a
-- connection that takes what it is given; the message is no longer pending, and no access is
-- undefined.
pub writable_each_sends :
    (ios : List Io) (s : Session) (buf : List ℕ)
    → All TakesAll ios
    → s.send_buf ≡ some buf
    → IsWell s
    → 0 < length ios
    → length buf ≤ pos_part s.send_offset + length ios * 1500
    → Ensures (IsIdle (wire s.calls ++ unsent s)) (writable_each ios s)
unfolding writable_each
writable_each_sends [] s buf all held well some_io enough = absurd (omega arith)
writable_each_sends (io ∷ ios) s buf all held well some_io enough =
    rw (writable_next io all.0 s buf held well) (elim (next_cases io all.0 s buf held well) [
      | inl done ↦ writable_each-IsIdle ios t ws (done, sym (idle_stream t done) ∙ keeps.stream)
      | inr (again, at, more) ↦ rw (← keeps.stream) (
          writable_each_sends ios t buf all.1 again keeps.well (omega arith)
            (let e = ap pos_part at in omega arith))
    ])
  where
    t : Session
    t = next io all.0 s buf held well

    ws : List ℕ
    ws = wire s.calls ++ unsent s

    keeps : Keeps 1 s t
    keeps = next-Keeps io all.0 s buf held well
