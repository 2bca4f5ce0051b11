-- ===== src/Session/Write/Chunks.antt =====
-- What one write takes from the caller's buffer, and what it leaves.
use usbws_lws.Base.{
  ℕ, ◌+◌, ◌-◌, ◌≤◌, min, ◌≡◌, subst, ltb_ℤ, if◌then◌else◌, Option, none, some, List, [], ◌∷◌, ◌++◌,
  arith, ℤ, pos, ◌-ℤ◌, pos_part, length, take, drop, length-take, length-drop,
}
use usbws_lws.Session.State.{Session, Io, WriteKind, binary, Call, written, read_at}
use usbws_lws.Session.Write.{send_content, chunk_len, after_write, send_data}

-- The bytes that the connection has accepted, in order.
abbrev pub wire : List Call → List ℕ
wire [] = []
wire (written binary chunk sent ∷ cs) = wire cs ++ take (pos_part sent) chunk
wire (_ ∷ cs) = wire cs

abbrev pub unsent_of : Option (List ℕ) → ℤ → List ℕ
unsent_of none off = []
unsent_of (some buf) off = drop (pos_part off) buf

-- The bytes that the sender has handed over and that are not yet accepted.
abbrev pub unsent : Session → List ℕ
unsent s = unsent_of s.send_buf s.send_offset

-- `send_len` is the size of the buffer, and `send_offset` lies in it.
abbrev pub Fits : Option (List ℕ) → ℤ → ℤ → Type 0
Fits none len off = Unit
Fits (some buf) len off =
    (len ≡ pos (length buf)) × (off ≡ pos (pos_part off)) × (pos_part off ≤ length buf)

abbrev pub IsWell : Session → Type 0
IsWell s = Fits s.send_buf s.send_len s.send_offset

-- `lws_write` as documented where it does not fail: it accepts some of the bytes, from the front.
abbrev pub Accepts : Io → Type 0
Accepts io =
    (k : WriteKind) (bytes : List ℕ)
    → (io.lws_write k bytes ≡ pos (pos_part (io.lws_write k bytes)))
      × (pos_part (io.lws_write k bytes) ≤ length bytes)

abbrev pub writes : List Call → ℕ
writes [] = 0
writes (written _ _ _ ∷ cs) = writes cs + 1
writes (_ ∷ cs) = writes cs

-- The writes made, and the one that may be made.
abbrev pub credit : Session → ℕ
credit s = writes s.calls + (if s.writable then 1 else 0)

-- No write holds more than 1500 bytes.
abbrev pub IsSized : List Call → Type 0
IsSized [] = Unit
IsSized (written _ chunk _ ∷ cs) = (length chunk ≤ 1500) × IsSized cs
IsSized (_ ∷ cs) = IsSized cs

-- What the next write takes when `off` bytes of `buf` are accepted.
abbrev pub chunk_at : List ℕ → ℕ → List ℕ
chunk_at buf off = take (min 1500 (length buf - off)) (drop off buf)

pub length-chunk_at :
    (buf : List ℕ) (off : ℕ) → length (chunk_at buf off) ≡ min 1500 (length buf - off)
length-chunk_at buf off =
    omega
      (arith, length-take {0} (min 1500 (length buf - off)) (drop off buf), length-drop {0} off buf)

chunk_len_nat :
    (n k : ℕ)
    → k ≤ n
    → (if ltb_ℤ send_content (pos n -ℤ pos k) then send_content else pos n -ℤ pos k)
      ≡ pos (min 1500 (n - k))
unfolding ◌-ℤ◌
chunk_len_nat n k h = ground arith

read_at_lem :
    (buf : List ℕ) (off n : ℕ)
    → off + n ≤ length buf
    → read_at buf (pos off) (pos n) ≡ some (take n (drop off buf))
read_at_lem buf off n h = ground arith

module _ (s : Session) (buf : List ℕ) (held : s.send_buf ≡ some buf) (well : IsWell s) where
  pub fits : Fits (some buf) s.send_len s.send_offset
  fits = subst (λ b. Fits b s.send_len s.send_offset) held well

  chunk_len_lem : chunk_len s ≡ pos (min 1500 (length buf - pos_part s.send_offset))
  unfolding chunk_len
  chunk_len_lem = rw (fits.0, fits.1) (chunk_len_nat (length buf) (pos_part s.send_offset) fits.2)

  read_chunk :
      read_at buf s.send_offset (chunk_len s) ≡ some (chunk_at buf (pos_part s.send_offset))
  read_chunk =
      rw (chunk_len_lem, fits.1)
        (read_at_lem buf (pos_part s.send_offset) _ (omega (arith, fits.2)))

  -- The write takes the bytes behind those accepted, at most 1500, and reads no other.
  pub send_data_lem :
      (io : Io)
      → let chunk = chunk_at buf (pos_part s.send_offset) in
        let sent = io.lws_write binary chunk in
        send_data io s ≡ some (sent, after_write chunk sent s)
  unfolding send_data
  send_data_lem io = rw (held, read_chunk)
