-- ===== src/TcpBuffer/Contents.antt =====
-- The bytes that a TcpBuffer holds for its reader, and what moving them to the head of a new
-- vector does (the part that resizeBuffer and adjustBuffer of tcp_buffer.cc share).
use native.Mathlib.Nat.{sub-zero}
use netrpc.Base.{
  ℕ, ◌+◌, ◌-◌, ◌≤◌, ◌<◌, ◌≡◌, sym, ◌∙◌, ap, ◌++◌, Bytes, ok, pos, arith, le→leb, take, drop, length,
  zeros, length-take, length-drop, length-append, length-zeros, slice_ok, take-append_eq, take-take,
}
use netrpc.TcpBuffer.{TcpBuffer, copy_into, move_to_head}

-- `[m_read_index, m_write_index)` of the vector.
abbrev pub readable : TcpBuffer → Bytes
readable b = take (b.write_index - b.read_index) (drop b.read_index b.buffer)

-- The representation invariant of the three fields that the methods use.
pub record IsValid (b : TcpBuffer) : Type 0 where
  pub ordered : b.read_index ≤ b.write_index
  pub inside : b.write_index ≤ length b.buffer

-- A buffer into which onRead can still put a byte: the write index is inside the vector.
pub record IsOpen (b : TcpBuffer) : Type 0 where
  pub valid : IsValid b
  pub slack : b.write_index < length b.buffer

pub length-readable :
    (b : TcpBuffer) → IsValid b → length (readable b) ≡ b.write_index - b.read_index
length-readable b v = omega (
  arith,
  length-take (b.write_index - b.read_index) (drop b.read_index b.buffer),
  length-drop b.read_index b.buffer,
)

pub copy_into_ok :
    (dst src : Bytes) (i : ℕ)
    → i + length src ≤ length dst
    → copy_into dst i src ≡ ok (take i dst ++ (src ++ drop (i + length src) dst))
unfolding copy_into
copy_into_ok dst src i h = rw (le→leb (i + length src) (length dst) h)

-- What a method leaves: a valid buffer that holds `bytes`, in a vector of `n`.
pub record Holds (b : TcpBuffer) (bytes : Bytes) (n : ℕ) : Type 0 where
  pub valid : IsValid b
  pub bytes_eq : readable b ≡ bytes
  pub size_eq : length b.buffer ≡ n

-- The buffer that `move_to_head` makes, with `k` bytes kept.
abbrev pub moved : TcpBuffer → ℕ → ℕ → TcpBuffer
moved b n k =
    let kept : Bytes = take k (drop b.read_index b.buffer) in
    record b { read_index = 0; write_index = k; buffer = kept ++ drop (length kept) (zeros n) }

module _ (b : TcpBuffer) (n k : ℕ) (v : IsValid b) where
  length-kept : k ≤ b.write_index - b.read_index → length (take k (drop b.read_index b.buffer)) ≡ k
  length-kept h = omega (
    arith,
    length-take k (drop b.read_index b.buffer),
    length-drop b.read_index b.buffer,
    v.inside,
    v.ordered,
  )

  pub move_to_head_ok :
      k ≤ b.write_index - b.read_index → k ≤ n → move_to_head b n (pos k) ≡ ok (moved b n k)
  unfolding move_to_head
  move_to_head_ok h hn =
      let kept : Bytes = take k (drop b.read_index b.buffer) in
      rw (slice_ok b.buffer b.read_index k (omega (arith, v.inside, v.ordered))) (
        rw (copy_into_ok (zeros n) kept 0 (omega (arith, length-kept h, length-zeros n))) (
          ap
            (λ j.
              ok (record b { read_index = 0; write_index = k; buffer = kept ++ drop j (zeros n) }))
            {x = 0 + length kept} (omega arith)))

  pub moved-Holds :
      k ≤ b.write_index - b.read_index → k ≤ n → Holds (moved b n k) (take k (readable b)) n
  moved-Holds h hn = record {
    valid = record { ordered = omega arith; inside = omega (arith, total) };
    bytes_eq = rw (sub-zero k) (
        take-append_eq k kept _ (length-kept h)
        ∙ sym (take-take k (b.write_index - b.read_index) (drop b.read_index b.buffer) h));
    size_eq = total;
  }
    where
      kept : Bytes
      kept = take k (drop b.read_index b.buffer)

      total : length (kept ++ drop (length kept) (zeros n)) ≡ n
      total = omega (
        arith,
        length-append kept (drop (length kept) (zeros n)),
        length-drop {A = ℕ} (length kept) (zeros n),
        length-zeros n,
        length-kept h,
      )

pub Holds-of_eq : {b : TcpBuffer} {x y : Bytes} {n : ℕ} → x ≡ y → Holds b x n → Holds b y n
Holds-of_eq e h = record { valid = h.valid; bytes_eq = h.bytes_eq ∙ e; size_eq = h.size_eq }
