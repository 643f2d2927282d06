-- ===== src/TcpBuffer/Moves.antt =====
-- moveReadIndex and moveWriteIndex of tcp_buffer.cc on a valid buffer.
use native.Mathlib.Nat.{le_refl}
use netrpc.Base.{
  ℕ, ◌+◌, ◌-◌, ◌≤◌, ◌≡◌, refl, ◌∙◌, ap, ◌++◌, ok, pos, arith, Bool-cases, inl, inr, ltb,
  if◌then◌else◌, ◌/◌, +ℤ_pos, take, drop, length, take-add, drop-drop,
}
use netrpc.TcpBuffer.{TcpBuffer, adjust_buffer, move_read_index, move_write_index}
use netrpc.TcpBuffer.Contents.{readable, IsValid, Holds, move_to_head_ok, length-readable}
use netrpc.TcpBuffer.Safety.{Leaves, read_able_ok, adjust_buffer-Leaves}
use netrpc.TcpBuffer.Reads.{advance-Holds}

-- moveReadIndex drops `n` readable bytes, unless that would bring the read index to the end of the
-- vector: then it changes nothing.
pub move_read_index-Leaves :
    (b : TcpBuffer) (n : ℕ)
    → IsValid b
    → n ≤ length (readable b)
    → Leaves
        (move_read_index b (pos n))
        (if ltb (b.read_index + n) (length b.buffer) then drop n (readable b) else readable b)
        (length b.buffer)
unfolding move_read_index
move_read_index-Leaves b n v h =
    let held = advance-Holds b n v (omega (arith, length-readable b v)) in
    let (b', e, h') =
      adjust_buffer-Leaves (record b { read_index = b.read_index + n }) held.valid in
    elim (Bool-cases (ltb (b.read_index + n) (length b.buffer))) [
      | inl inside ↦ (
        b',
        rw (+ℤ_pos b.read_index n, move_read_index) (ground (arith, e)),
        record {
          valid = h'.valid;
          bytes_eq = rw inside (h'.bytes_eq ∙ held.bytes_eq);
          size_eq = h'.size_eq;
        },
      )
      | inr beyond ↦ (
        b,
        rw (+ℤ_pos b.read_index n, move_read_index) (ground arith),
        record { valid = v; bytes_eq = rw beyond; size_eq = refl },
      )
    ]

-- Moving the write index hands the reader the bytes that stand behind it.
extend-Holds :
    (b : TcpBuffer) (n : ℕ)
    → IsValid b
    → b.write_index + n ≤ length b.buffer
    → Holds
        (record b { write_index = b.write_index + n })
        (readable b ++ take n (drop b.write_index b.buffer))
        (length b.buffer)
extend-Holds b n v h =
    let m : ℕ = b.write_index - b.read_index in
    let back : b.read_index + m ≡ b.write_index = omega (arith, v.ordered) in
    record {
      valid = record { ordered = omega (arith, v.ordered); inside = h };
      bytes_eq =
          ap (λ j. take j (drop b.read_index b.buffer)) {x = b.write_index + n - b.read_index}
            {y = m + n} (omega (arith, v.ordered))
          ∙ take-add m n (drop b.read_index b.buffer)
          ∙ ap (λ x. readable b ++ take n x)
              (drop-drop m b.read_index b.buffer ∙ ap (λ j. drop j b.buffer) back);
      size_eq = refl;
    }

-- moveWriteIndex hands the next `n` bytes of the vector, which the caller has stored there, to the
-- reader, unless that would bring the write index to the end of the vector: then it changes nothing.
pub move_write_index-Leaves :
    (b : TcpBuffer) (n : ℕ)
    → IsValid b
    → b.write_index + n ≤ length b.buffer
    → Leaves
        (move_write_index b (pos n))
        (if ltb (b.write_index + n) (length b.buffer)
          then readable b ++ take n (drop b.write_index b.buffer)
          else readable b)
        (length b.buffer)
unfolding move_write_index
move_write_index-Leaves b n v h =
    let held = extend-Holds b n v h in
    let (b', e, h') =
      adjust_buffer-Leaves (record b { write_index = b.write_index + n }) held.valid in
    elim (Bool-cases (ltb (b.write_index + n) (length b.buffer))) [
      | inl inside ↦ (
        b',
        rw (+ℤ_pos b.write_index n, move_write_index) (ground (arith, e)),
        record {
          valid = h'.valid;
          bytes_eq = rw inside (h'.bytes_eq ∙ held.bytes_eq);
          size_eq = h'.size_eq;
        },
      )
      | inr beyond ↦ (
        b,
        rw (+ℤ_pos b.write_index n, move_write_index) (ground arith),
        record { valid = v; bytes_eq = rw beyond; size_eq = refl },
      )
    ]

-- Compaction never moves the write index up, and neither does moveReadIndex.
adjust_buffer-write_index :
    (b : TcpBuffer) {b' : TcpBuffer}
    → IsValid b
    → adjust_buffer b ≡ ok b'
    → b'.write_index ≤ b.write_index
unfolding adjust_buffer
adjust_buffer-write_index b {b'} v e = elim (Bool-cases (ltb b.read_index (length b.buffer / 3))) [
  | inl low ↦ ground arith
  | inr high ↦
      let k : ℕ = b.write_index - b.read_index in
      ground (
        arith,
        read_able_ok b v,
        move_to_head_ok b (length b.buffer) k v (le_refl k) (omega (arith, v.inside)),
      )
]

pub move_read_index-write_index :
    (b : TcpBuffer) (n : ℕ) {b' : TcpBuffer}
    → IsValid b
    → n ≤ length (readable b)
    → move_read_index b (pos n) ≡ ok b'
    → b'.write_index ≤ b.write_index
unfolding move_read_index
move_read_index-write_index b n {b'} v h e =
    let held = advance-Holds b n v (omega (arith, length-readable b v)) in
    ground (
      arith,
      +ℤ_pos b.read_index n,
      adjust_buffer-write_index (record b { read_index = b.read_index + n }) {b' = b'} held.valid,
    )

pub move_write_index-write_index :
    (b : TcpBuffer) (n : ℕ) {b' : TcpBuffer}
    → IsValid b
    → b.write_index + n ≤ length b.buffer
    → move_write_index b (pos n) ≡ ok b'
    → b'.write_index ≤ b.write_index + n
unfolding move_write_index
move_write_index-write_index b n {b'} v h e = ground (
  arith,
  +ℤ_pos b.write_index n,
  adjust_buffer-write_index (record b { write_index = b.write_index + n }) {b' = b'}
      (extend-Holds b n v h).valid,
)
