-- ===== src/Session/Write/Failure.antt =====
-- A write that fails.
use usbws_lws.Base.{
  ℕ, suc, ◌≡◌, ap, ◌∙◌, true, false, none, some, List, arith, pos, negsuc, ◌+ℤ◌, pos_part, is_some,
  if_intro,
}
use usbws_lws.Session.State.{Session, Io, binary}
use usbws_lws.Session.Write.{handle_writable, send_data, after_write}
use usbws_lws.Session.Write.Chunks.{IsWell, chunk_at, fits, send_data_lem}

module _ (io : Io) (s : Session) (buf : List ℕ) (held : s.send_buf ≡ some buf) (well : IsWell s)
    (failed : io.lws_write binary (chunk_at buf (pos_part s.send_offset)) ≡ negsuc 0) where
  abbrev ready : Session
  ready = record s { writable = true; ping_pending = false }

  abbrev after_failure : Session
  after_failure = after_write (chunk_at buf (pos_part s.send_offset)) (negsuc 0) ready

  failed_lem : handle_writable io s ≡ some (negsuc 0, after_failure)
  unfolding handle_writable
  failed_lem =
      if_intro (λ r. r ≡ some (negsuc 0, after_failure)) (is_some s.send_buf)
        (λ _.
          send_data_lem ready buf held well io
          ∙ ap (λ sent. some (sent, after_write (chunk_at buf (pos_part s.send_offset)) sent ready))
              failed)
        (λ e. absurd (ground arith))

  -- Where `lws_write` returns -1 for the first chunk of a pending message, the writable callback
  -- keeps the message and takes one off the offset, which is -1 then, and any writable callback after it makes an
  -- undefined access, in front of the buffer.
  pub handle_writable_fails :
      (later : Io)
      → s.send_offset ≡ pos 0
      → (t : Session) × (handle_writable io s ≡ some (negsuc 0, t))
        × (t.send_buf ≡ some buf)
        × (t.send_offset ≡ negsuc 0)
        × (handle_writable later t ≡ none)
  unfolding handle_writable send_data after_write ◌+ℤ◌
  handle_writable_fails later first = (
    after_failure,
    failed_lem,
    ground (arith, fits s buf held well),
    ground (arith, fits s buf held well),
    ground (arith, fits s buf held well),
  )

  -- Further on in the message, the next chunk starts with the last byte that was accepted before.
  pub handle_writable_resends :
      (k : ℕ)
      → s.send_offset ≡ pos (suc k)
      → (t : Session) × (handle_writable io s ≡ some (negsuc 0, t))
        × (t.send_buf ≡ some buf)
        × (t.send_offset ≡ pos k)
  unfolding after_write ◌+ℤ◌
  handle_writable_resends k further = (
    after_failure,
    failed_lem,
    ground (arith, fits s buf held well),
    ground (arith, fits s buf held well),
  )
