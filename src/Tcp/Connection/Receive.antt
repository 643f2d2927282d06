-- ===== src/Tcp/Connection/Receive.antt =====
-- What TcpConnection::onRead keeps of the bytes that arrive.
use mathlib.Core.Path.{ap₂}
use netrpc.Base.{
  ℕ, zero, suc, ◌+◌, ◌-◌, ◌≤◌, ◌<◌, ◌≡◌, refl, ◌∙◌, Bytes, ok, pos, arith, lt→ltb, le→leb, +ℤ_pos,
  take-drop, drop-append_le, take, drop, length, length-append, length-take, length-drop,
  take-append_eq, drop-append_eq, ◌++◌,
}
use netrpc.TcpBuffer.{TcpBuffer, move_write_index, write_able}
use netrpc.TcpBuffer.Contents.{readable, IsValid, IsOpen, copy_into_ok, length-readable}
use netrpc.TcpBuffer.Safety.{write_able_ok}
use netrpc.TcpBuffer.Moves.{move_write_index-Leaves, move_write_index-write_index}
use netrpc.Tcp.Connection.{room_to_read, take_in}

-- An open buffer has room, and is not resized.
pub room_to_read-open : (b : TcpBuffer) → IsOpen b → room_to_read b ≡ ok b
unfolding room_to_read
room_to_read-open b o =
    go (length b.buffer - b.write_index) (write_able_ok b o.valid) (omega (arith, o.slack))
  where
    go : (n : ℕ) → write_able b ≡ pos n → 0 < n → room_to_read b ≡ ok b
    go zero e h = elim h [ ]
    go (suc n) e h = rw (e, room_to_read)

-- The vector with `bytes` written behind the write index.
abbrev written : TcpBuffer → Bytes → TcpBuffer
written b bytes = record b {
  buffer = take b.write_index b.buffer ++ (bytes ++ drop (b.write_index + length bytes) b.buffer);
}

module _ (b : TcpBuffer) (bytes : Bytes) (o : IsOpen b)
    (fits : b.write_index + length bytes ≤ length b.buffer) where
  length-written : length (written b bytes).buffer ≡ length b.buffer
  length-written = omega (
    arith,
    length-append (take b.write_index b.buffer)
        (bytes ++ drop (b.write_index + length bytes) b.buffer),
    length-append bytes (drop (b.write_index + length bytes) b.buffer),
    length-take b.write_index b.buffer,
    length-drop (b.write_index + length bytes) b.buffer,
  )

  readable-written : readable (written b bytes) ≡ readable b
  readable-written =
      let w : ℕ = b.write_index in
      let r : ℕ = b.read_index in
      let tail : Bytes = bytes ++ drop (w + length bytes) b.buffer in
      rw
        (
          drop-append_le r (take w b.buffer) tail
              (omega (arith, length-take w b.buffer, o.valid.ordered, o.slack)),
          take-drop r w b.buffer,
        )
        (take-append_eq (w - r) (readable b) tail (length-readable b o.valid))

  behind-written : take (length bytes) (drop b.write_index (written b bytes).buffer) ≡ bytes
  behind-written =
      let w : ℕ = b.write_index in
      let tail : Bytes = drop (w + length bytes) b.buffer in
      rw
        (drop-append_eq w (take w b.buffer) (bytes ++ tail)
          (omega (arith, length-take w b.buffer, o.slack)))
        (take-append_eq (length bytes) bytes tail refl)

  written-IsValid : IsValid (written b bytes)
  written-IsValid = record {
    ordered = o.valid.ordered;
    inside = omega (arith, o.valid.inside, length-written);
  }

  -- Bytes that leave room behind them reach the reader.
  pub take_in-kept :
      b.write_index + length bytes < length b.buffer
      → (b' : TcpBuffer) × (take_in b bytes ≡ ok b')
        × IsOpen b'
        × (readable b' ≡ readable b ++ bytes)
  unfolding take_in
  take_in-kept room =
      let in_range : b.write_index + length bytes ≤ length (written b bytes).buffer =
        omega (arith, length-written) in
      let (b', e, h) =
        move_write_index-Leaves (written b bytes) (length bytes) written-IsValid in_range in
      (
        b',
        rw (copy_into_ok b.buffer bytes b.write_index fits) e,
        record {
          valid = h.valid;
          slack = omega (
            arith,
            h.size_eq,
            length-written,
            move_write_index-write_index (written b bytes) (length bytes) {b' = b'} written-IsValid
                in_range e,
          );
        },
        h.bytes_eq
            ∙ rw
                (lt→ltb (b.write_index + length bytes) (length (written b bytes).buffer)
                  (omega (arith, length-written)))
                (ap₂ ◌++◌ readable-written behind-written),
      )

  -- Bytes that fill the buffer to its end do not: moveWriteIndex refuses.
  pub take_in-lost :
      b.write_index + length bytes ≡ length b.buffer
      → (b' : TcpBuffer) × (take_in b bytes ≡ ok b')
        × IsOpen b'
        × (readable b' ≡ readable b)
        × (length b'.buffer - b'.write_index ≡ length b.buffer - b.write_index)
  unfolding take_in move_write_index
  take_in-lost full = (
    written b bytes,
    rw (
      copy_into_ok b.buffer bytes b.write_index fits,
      +ℤ_pos b.write_index (length bytes),
      le→leb (length (written b bytes).buffer) (b.write_index + length bytes)
          (omega (arith, length-written)),
      move_write_index,
    ),
    record { valid = written-IsValid; slack = omega (arith, length-written, o.slack) },
    readable-written,
    omega (arith, length-written),
  )
