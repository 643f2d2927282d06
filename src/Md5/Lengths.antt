-- ===== src/Md5/Lengths.antt =====
-- How long the padded text and the digest are.
use Prim.Native.Nat.{bit_and}
use netrpc.Base.{
  ℕ, zero, suc, ◌+◌, ◌-◌, ◌*◌, ◌/◌, ◌%◌, ◌^◌, ◌<◌, ◌≤◌, ◌≡◌, refl, ap, ◌↔◌, Bytes, false, Returns,
  ok, [], ◌∷◌, ◌++◌, length, length-append, length-drop, take, drop, take-append_eq, Bool-cases,
  inl, inr, arith, ◌==◌, leb, eq→==, pos, to_int32-small,
}
use netrpc.Murmur.{word}
use netrpc.Md5.{
  Words, calculate_block, pad_zeros, fill, to_uint64, memory_bytes, padding, compute, digest_word,
  gen_digest, digest, initial,
}

-- `k` zeros are missing.
pad_zeros-length :
    (fuel k n : ℕ)
    → k < fuel
    → (n + 8 * k) % 512 ≡ 448
    → Returns
        (λ zeros. ((n + 8 * length zeros) % 512 ≡ 448) × (length zeros ≤ k))
        (pad_zeros fuel n)
unfolding pad_zeros
pad_zeros-length zero k n lt e = elim lt [ ]
pad_zeros-length (suc fuel) k n lt e = elim (Bool-cases (n % 512 == 448)) [
  | inl h ↦ ([], rw (h, pad_zeros) refl, (ground arith, omega arith))
  | inr h ↦
      let (zs, same, (p, q)) =
        pad_zeros-length fuel (k - 1) (n + 8) (ground arith) (ground arith) in
      (0 ∷ zs, rw (h, pad_zeros) (rw same refl), (ground arith, ground arith))
]

fill-length :
    (m : ℕ)
    → Returns (λ bytes. ((m + length bytes) % 64 ≡ 56) × (length bytes ≤ 64)) (fill (pos (m * 8)))
unfolding fill
fill-length m = elim (Bool-cases ((m * 8) % 512 == 448)) [
  | inl h ↦ ([], rw (h, fill) refl, (ground arith, omega arith))
  | inr h ↦
      let k : ℕ = (119 - m % 64) % 64 in
      let (zs, same, (p, q)) = pad_zeros-length 65 k (m * 8 + 8) (omega arith) (omega arith) in
      (0x80 ∷ zs, rw (h, fill) (rw same refl), (omega (arith, p), omega (arith, q)))
]

length-memory_bytes : (k n : ℕ) → length (memory_bytes k n) ≡ k
unfolding memory_bytes
length-memory_bytes zero n = refl
length-memory_bytes (suc k) n = ap suc (length-memory_bytes k (n / 256))

-- The padded text fills whole blocks, begins with the text, and is at most 72 bytes longer.
padding-length :
    (text : Bytes)
    → length text * 8 < 2 ^ 31
    → Returns
        (λ padded.
          (length padded % 64 ≡ 0)
          × (take (length text) padded ≡ text)
          × (length padded ≤ length text + 72))
        (padding text)
unfolding padding to_uint64
padding-length text counted =
    let (filled, same, (p, q)) = fill-length (length text) in
    let size : Bytes = memory_bytes 8 (length text * 8) in
    let behind = length-append filled size in
    let whole = length-append text (filled ++ size) in
    let eight = length-memory_bytes 8 (length text * 8) in
    (
      text ++ (filled ++ size),
      rw (to_int32-small (length text * 8) counted, padding) (rw same refl),
      (
        omega (arith, p, behind, whole, eight),
        take-append_eq (length text) text (filled ++ size) refl,
        omega (arith, q, behind, whole, eight),
      ),
    )

-- Four uint32_t.
abbrev pub IsState : Words → Type 0
IsState w = (w.a < 2 ^ 32) × (w.b < 2 ^ 32) × (w.c < 2 ^ 32) × (w.d < 2 ^ 32)

word-lt : (n : ℕ) → word n < 2 ^ 32
word-lt n = omega arith

calculate_block-IsState : (block : Bytes) (w : Words) → IsState (calculate_block block w)
unfolding calculate_block
calculate_block-IsState block w = (word-lt _, word-lt _, word-lt _, word-lt _)

compute-IsState :
    (fuel : ℕ) (blocks : Bytes) (w : Words)
    → length blocks % 64 ≡ 0
    → length blocks ≤ fuel
    → IsState w
    → Returns IsState (compute fuel blocks w)
unfolding compute
compute-IsState fuel [] w whole enough ok_ = (w, refl, ok_)
compute-IsState zero (x ∷ xs) w whole enough ok_ = absurd (omega (arith, enough))
compute-IsState (suc fuel) (x ∷ xs) w whole enough ok_ =
    elim (Bool-cases (leb 64 (length (x ∷ xs)))) [
      | inl h ↦
          rw (h, compute)
            (compute-IsState fuel (drop 64 (x ∷ xs)) (calculate_block (take 64 (x ∷ xs)) w)
              (ground (arith, length-drop 64 (x ∷ xs))) (ground (arith, length-drop 64 (x ∷ xs)))
              (calculate_block-IsState (take 64 (x ∷ xs)) w))
      | inr h ↦ absurd (ground arith)
    ]

-- 256 to the k, and to the k - 1.
abbrev high : ℕ → ℕ
high zero = 1
high (suc k) = 256 * high k

abbrev low : ℕ → ℕ
low zero = 0
low (suc k) = high k

high-pos : (k : ℕ) → 1 ≤ high k
high-pos zero = omega arith
high-pos (suc k) = omega (arith, high-pos k)

low-div : (k n : ℕ) → (n == 0) ≡ false → (low k ≤ n / 256) ↔ (high k ≤ n)
low-div zero n h = ground arith
low-div (suc k) n h = ground arith

-- A word of at most k bytes gives them all just when its highest byte is not 0.
digest_word-length :
    (fuel k n : ℕ)
    → k < fuel
    → n < high k
    → Returns
        (λ bytes. (length bytes ≤ k) × ((length bytes ≡ k) ↔ (low k ≤ n)))
        (digest_word fuel n)
unfolding digest_word
digest_word-length zero k n lt small = elim lt [ ]
digest_word-length (suc fuel) zero n lt small =
    ([], rw (eq→== n 0 (omega arith), digest_word) refl, (omega arith, ground arith))
digest_word-length (suc fuel) (suc k) n lt small = elim (Bool-cases (n == 0)) [
  | inl h ↦ ([], rw (h, digest_word) refl, (omega arith, ground (arith, high-pos k)))
  | inr h ↦
      let (bytes, same, (p, q)) =
        digest_word-length fuel k (n / 256) (omega arith) (omega (arith, small)) in
      (
        bit_and n 0xff ∷ bytes,
        rw (h, digest_word) (rw same refl),
        (omega (arith, p), ground (arith, low-div k n h, q)),
      )
]

digest_word_lem :
    (n : ℕ)
    → n < 2 ^ 32
    → Returns (λ bytes. (length bytes ≤ 4) × ((length bytes ≡ 4) ↔ (2 ^ 24 ≤ n))) (digest_word 5 n)
digest_word_lem n small = digest_word-length 5 4 n (omega arith) (omega (arith, small))

-- Of four uint32_t, genDigest makes at most 16 bytes, and 16 exactly where the highest byte of
-- every word is not 0: the loop over a word stops before its leading zeros.
pub gen_digest-length :
    (w : Words)
    → IsState w
    → Returns
        (λ bytes.
          (length bytes ≤ 16)
          × ((length bytes ≡ 16)
              ↔ ((2 ^ 24 ≤ w.a) × (2 ^ 24 ≤ w.b) × (2 ^ 24 ≤ w.c) × (2 ^ 24 ≤ w.d))))
        (gen_digest w)
unfolding gen_digest
gen_digest-length w (a, b, c, d) =
    let (xs, sa, (la, ia)) = digest_word_lem w.a a in
    let (bs, sb, (lb, ib)) = digest_word_lem w.b b in
    let (cs, sc, (lc, ic)) = digest_word_lem w.c c in
    let (ds, sd, (ld, id)) = digest_word_lem w.d d in
    let e₁ = length-append xs (bs ++ (cs ++ ds)) in
    let e₂ = length-append bs (cs ++ ds) in
    let e₃ = length-append cs ds in
    (
      xs ++ (bs ++ (cs ++ ds)),
      rw sa (rw sb (rw sc (rw sd refl))),
      (
        omega (arith, e₁, e₂, e₃, la, lb, lc, ld),
        ground (arith, e₁, e₂, e₃, la, lb, lc, ld, ia, ib, ic, id),
      ),
    )

-- On a text whose bits an int counts, digest returns at most 16 bytes, and 16, which its callers
-- read, exactly where the highest byte of each of the four words that the blocks of the padded text
-- leave is not 0.
pub digest-length :
    (src : Bytes)
    → length src * 8 < 2 ^ 31
    → (padded : Bytes) × (w : Words) × (bytes : Bytes) × (padding src ≡ ok padded)
      × (compute (length padded) padded initial ≡ ok w)
      × (digest src ≡ ok bytes)
      × (length bytes ≤ 16)
      × ((length bytes ≡ 16) ↔ ((2 ^ 24 ≤ w.a) × (2 ^ 24 ≤ w.b) × (2 ^ 24 ≤ w.c) × (2 ^ 24 ≤ w.d)))
unfolding digest
digest-length src counted =
    let (padded, filled, (whole, _, _)) = padding-length src counted in
    let (w, left, state) =
      compute-IsState (length padded) padded initial whole (omega arith)
        (omega arith, omega arith, omega arith, omega arith) in
    let (bytes, made, (short, full)) = gen_digest-length w state in
    (padded, w, bytes, filled, left, rw filled (rw left made), short, full)
