-- ===== src/TcpBuffer/Reads.antt =====
-- readFromBuffer of tcp_buffer.cc on a valid buffer.
use netrpc.Base.{
  ℕ, zero, suc, ◌+◌, ◌-◌, ◌≤◌, ◌≡◌, refl, sym, ◌∙◌, ap, [], Bytes, ok, pos, arith, min, ltb,
  if◌then◌else◌, take, drop, length, take-min, take-take, drop-min, drop-nil, nil_of_length, lt→ltb,
  slice_ok, take-drop, drop-drop,
}
use netrpc.TcpBuffer.{TcpBuffer, read_able, read_from_buffer}
use netrpc.TcpBuffer.Contents.{readable, IsValid, Holds, length-readable}
use netrpc.TcpBuffer.Safety.{read_able_ok, min_ℤ_pos, adjust_buffer-Leaves}

-- Reading past `k` bytes drops them.
pub advance-Holds :
    (b : TcpBuffer) (k : ℕ)
    → IsValid b
    → k ≤ b.write_index - b.read_index
    → Holds (record b { read_index = b.read_index + k }) (drop k (readable b)) (length b.buffer)
advance-Holds b k v h = record {
  valid = record { ordered = omega (arith, v.ordered); inside = v.inside };
  bytes_eq =
      rw
        (
          take-drop k (b.write_index - b.read_index) (drop b.read_index b.buffer),
          drop-drop k b.read_index b.buffer,
        )
        (ap (λ j. take j (drop (b.read_index + k) b.buffer))
          {x = b.write_index - (b.read_index + k)} {y = b.write_index - b.read_index - k}
          (omega arith));
  size_eq = refl;
}

-- The part of readFromBuffer behind its first test, for a buffer that holds some bytes.
read_some :
    (b : TcpBuffer) (re : Bytes) (n m : ℕ)
    → IsValid b
    → b.write_index - b.read_index ≡ suc m
    → (b' : TcpBuffer) × (read_from_buffer b re (pos n) ≡ ok (take n (readable b), b'))
      × Holds b' (drop n (readable b)) (length b.buffer)
unfolding read_from_buffer
read_some b re n m v e =
    let k : ℕ = min (suc m) n in
    let held = advance-Holds b k v (omega arith) in
    let (b', e', h) =
      adjust_buffer-Leaves (record b { read_index = b.read_index + k }) held.valid in
    let count : min n (length (readable b)) ≡ k = omega (arith, length-readable b v) in
    let able : read_able b ≡ pos (suc m) = read_able_ok b v ∙ ap pos e in
    (
      b',
      rw (able, min_ℤ_pos (suc m) n, read_from_buffer)
          (rw (slice_ok b.buffer b.read_index k (omega (arith, v.inside)), e')
            (ap (λ x. ok (x, b'))
              (sym (
                  take-take k (b.write_index - b.read_index) (drop b.read_index b.buffer)
                    (omega arith))
                ∙ ap (λ j. take j (readable b)) (sym count)
                ∙ take-min n (readable b)))),
      record {
        valid = h.valid;
        bytes_eq =
            h.bytes_eq
            ∙ held.bytes_eq
            ∙ ap (λ j. drop j (readable b)) (sym count)
            ∙ drop-min n (readable b);
        size_eq = h.size_eq;
      },
    )

-- readFromBuffer, asked for `n` bytes of a buffer that holds some, takes the first `n` of them (all
-- where there are fewer) and leaves the rest; on an empty buffer it leaves the caller's vector.
pub read_from_buffer_lem :
    (b : TcpBuffer) (re : Bytes) (n : ℕ)
    → IsValid b
    → (b' : TcpBuffer) × (read_from_buffer b re (pos n)
        ≡ ok ((if ltb 0 (length (readable b)) then take n (readable b) else re), b'))
      × Holds b' (drop n (readable b)) (length b.buffer)
unfolding read_from_buffer
read_from_buffer_lem b re n v = go (b.write_index - b.read_index) refl
  where
    go :
        (m : ℕ)
        → b.write_index - b.read_index ≡ m
        → (b' : TcpBuffer) × (read_from_buffer b re (pos n)
            ≡ ok ((if ltb 0 (length (readable b)) then take n (readable b) else re), b'))
          × Holds b' (drop n (readable b)) (length b.buffer)
    go zero e =
        let none_left : length (readable b) ≡ 0 = length-readable b v ∙ e in
        let empty : readable b ≡ [] = nil_of_length (readable b) none_left in
        let able : read_able b ≡ pos 0 = read_able_ok b v ∙ ap pos e in
        (
          b,
          rw (able, none_left, read_from_buffer),
          record {
            valid = v;
            bytes_eq = empty ∙ sym (drop-nil ℕ n) ∙ ap (drop n) (sym empty);
            size_eq = refl;
          },
        )
    go (suc m) e =
        let (b', e', h) = read_some b re n m v e in
        (b', rw (lt→ltb 0 (length (readable b)) (omega (arith, length-readable b v))) e', h)
