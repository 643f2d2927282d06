-- ===== src/TcpBuffer/Safety.antt =====
-- The methods of tcp_buffer.cc on a valid buffer: none of them faults, all of them keep the
-- buffer valid, and what each does to the readable bytes.
use native.Mathlib.Nat.{le_refl}
use mathlib.Core.List.{append_assoc}
use netrpc.Base.{
  ℕ, ◌+◌, ◌-◌, ◌*◌, ◌/◌, ◌≤◌, ◌<◌, ◌^◌, ◌≡◌, refl, sym, ◌∙◌, ap, ◌++◌, Bytes, Result, ok, pos,
  arith, min, Bool-cases, inl, inr, ltb, leb, if◌then◌else◌, -ℤ_pos, take, drop, length,
  length-append, length-take, length-drop, take-min, take-all, take-drop, drop-append_le,
  take-append_eq,
}
use netrpc.TcpBuffer.{
  TcpBuffer, read_able, write_able, min_ℤ, resize_buffer, adjust_buffer, make_room, write_to_buffer,
}
use netrpc.TcpBuffer.Contents.{
  readable, IsValid, Holds, Holds-of_eq, moved, move_to_head_ok, moved-Holds, length-readable,
  copy_into_ok,
}

-- The method returns, and leaves a valid buffer with these readable bytes and vector size.
abbrev pub Leaves : Result TcpBuffer → Bytes → ℕ → Type 0
Leaves r bytes n = (b' : TcpBuffer) × (r ≡ ok b') × Holds b' bytes n

pub read_able_ok : (b : TcpBuffer) → IsValid b → read_able b ≡ pos (b.write_index - b.read_index)
unfolding read_able
read_able_ok b v = -ℤ_pos b.write_index b.read_index v.ordered

pub write_able_ok :
    (b : TcpBuffer) → IsValid b → write_able b ≡ pos (length b.buffer - b.write_index)
unfolding write_able
write_able_ok b v = -ℤ_pos (length b.buffer) b.write_index v.inside

pub min_ℤ_pos : (a b : ℕ) → min_ℤ (pos a) (pos b) ≡ pos (min a b)
unfolding min_ℤ
min_ℤ_pos a b = ground arith

-- resizeBuffer keeps the first `new_size` readable bytes, in a vector of `new_size`.
pub resize_buffer_ok :
    (b : TcpBuffer) (n : ℕ)
    → IsValid b
    → resize_buffer b n ≡ ok (moved b n (min n (b.write_index - b.read_index)))
unfolding resize_buffer
resize_buffer_ok b n v =
    rw (read_able_ok b v, min_ℤ_pos n (b.write_index - b.read_index))
      (move_to_head_ok b n (min n (b.write_index - b.read_index)) v (omega arith) (omega arith))

pub resize_buffer-Holds :
    (b : TcpBuffer) (n : ℕ)
    → IsValid b
    → Holds (moved b n (min n (b.write_index - b.read_index))) (take n (readable b)) n
resize_buffer-Holds b n v =
    Holds-of_eq
      (ap (λ j. take (min n j) (readable b)) (sym (length-readable b v)) ∙ take-min n (readable b))
      (moved-Holds b n (min n (b.write_index - b.read_index)) v (omega arith) (omega arith))

-- adjustBuffer changes neither the readable bytes nor the size of the vector.
pub adjust_buffer-Leaves :
    (b : TcpBuffer) → IsValid b → Leaves (adjust_buffer b) (readable b) (length b.buffer)
unfolding adjust_buffer
adjust_buffer-Leaves b v = elim (Bool-cases (ltb b.read_index (length b.buffer / 3))) [
  | inl low ↦ (b, rw low, record { valid = v; bytes_eq = refl; size_eq = refl })
  | inr high ↦
      let k : ℕ = b.write_index - b.read_index in
      let fits : k ≤ length b.buffer = omega (arith, v.inside) in
      (
        moved b (length b.buffer) k,
        rw (high, read_able_ok b v) (move_to_head_ok b (length b.buffer) k v (le_refl k) fits),
        Holds-of_eq (take-all k (readable b) (omega (arith, length-readable b v)))
            (moved-Holds b (length b.buffer) k v (le_refl k) fits),
      )
]

-- The buffer after a copy of `src` to the write index.
abbrev stored : TcpBuffer → Bytes → TcpBuffer
stored b src = record b {
  write_index = b.write_index + length src;
  buffer = take b.write_index b.buffer ++ (src ++ drop (b.write_index + length src) b.buffer);
}

stored-Holds :
    (b : TcpBuffer) (src : Bytes)
    → IsValid b
    → b.write_index + length src ≤ length b.buffer
    → Holds (stored b src) (readable b ++ src) (length b.buffer)
stored-Holds b src v h = record {
  valid = record { ordered = omega (arith, v.ordered); inside = omega (arith, total) };
  bytes_eq =
      rw
        (
          drop-append_le b.read_index (take b.write_index b.buffer) (src ++ rest)
              (omega (arith, length-take b.write_index b.buffer, v.ordered, v.inside)),
          take-drop b.read_index b.write_index b.buffer,
          ← append_assoc (readable b) src rest,
        )
        (take-append_eq (b.write_index + length src - b.read_index) (readable b ++ src) rest
          (omega (arith, length-append (readable b) src, length-readable b v, v.ordered)));
  size_eq = total;
}
  where
    rest : Bytes
    rest = drop (b.write_index + length src) b.buffer

    total : length (stored b src).buffer ≡ length b.buffer
    total = omega (
      arith,
      length-append (take b.write_index b.buffer)
          (src ++ drop (b.write_index + length src) b.buffer),
      length-append src (drop (b.write_index + length src) b.buffer),
      length-take b.write_index b.buffer,
      length-drop (b.write_index + length src) b.buffer,
      v.inside,
    )

-- The capacity of the vector after a write of `n` bytes.
abbrev pub grown : TcpBuffer → ℕ → ℕ
grown b n =
    if leb n (length b.buffer - b.write_index) then length b.buffer else 3 * (b.write_index + n) / 2

-- The growth keeps the readable bytes, and leaves room for `n` more.
make_room_lem :
    (b : TcpBuffer) (n : ℕ)
    → IsValid b
    → (b' : TcpBuffer) × (make_room b n ≡ ok b')
      × Holds b' (readable b) (grown b n)
      × (b'.write_index + n ≤ length b'.buffer)
unfolding make_room
make_room_lem b n v = elim (Bool-cases (leb n (length b.buffer - b.write_index))) [
  | inl fits ↦ (
    b,
    rw (write_able_ok b v) (ground arith),
    record { valid = v; bytes_eq = refl; size_eq = ground arith },
    ground (arith, v.inside),
  )
  | inr full ↦
      let size : ℕ = 3 * (b.write_index + n) / 2 in
      let held = resize_buffer-Holds b size v in
      let enough : b.write_index + n ≤ size = omega arith in
      (
        moved b size (min size (b.write_index - b.read_index)),
        rw (write_able_ok b v) (ground (arith, resize_buffer_ok b size v)),
        record {
          valid = held.valid;
          bytes_eq =
              held.bytes_eq
              ∙ take-all size (readable b) (omega (arith, length-readable b v, v.inside));
          size_eq = held.size_eq ∙ ground arith;
        },
        omega (arith, held.size_eq),
      )
]

-- Without a bound on the sizes: all of `buf` is appended, in a vector of the size that `grown` says.
pub write_to_buffer-appends :
    (b : TcpBuffer) (buf : Bytes)
    → IsValid b
    → Leaves (write_to_buffer b buf) (readable b ++ buf) (grown b (length buf))
unfolding write_to_buffer
write_to_buffer-appends b buf v =
    let (b', e, h, room) = make_room_lem b (length buf) v in
    let held = stored-Holds b' buf h.valid room in
    (
      stored b' buf,
      rw (e, copy_into_ok b'.buffer buf b'.write_index room),
      record {
        valid = held.valid;
        bytes_eq = held.bytes_eq ∙ ap (λ (x : Bytes). x ++ buf) h.bytes_eq;
        size_eq = held.size_eq ∙ h.size_eq;
      },
    )

-- On a valid buffer whose vector, grown where `buf` does not fit behind the write index, still has a
-- size that an int holds: writeToBuffer returns and appends all of `buf` to the readable bytes; the
-- vector has just that size; and no int of the method overflows, neither the sum of the write index
-- and the bytes of `buf` nor the new write index.
pub write_to_buffer-Leaves :
    (b : TcpBuffer) (buf : Bytes)
    → IsValid b
    → grown b (length buf) < 2 ^ 31
    → (b.write_index + length buf < 2 ^ 31)
      × ((b' : TcpBuffer) × (write_to_buffer b buf ≡ ok b')
          × Holds b' (readable b ++ buf) (grown b (length buf))
          × (b'.write_index < 2 ^ 31))
write_to_buffer-Leaves b buf v small =
    let (b', e, h) = write_to_buffer-appends b buf v in
    (ground (arith, v.inside), (b', e, h, omega (arith, h.valid.inside, h.size_eq, small)))
