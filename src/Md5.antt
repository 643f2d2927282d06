-- ===== src/Md5.antt =====
-- MD5 of netrpc/common/enc/md5.{h,cpp}. A uint32_t is a number below 2 ^ 32; the words of a block
-- are read on a little-endian machine.
pub mod Lengths
mod Tests
use Prim.Native.Nat.{bit_and, bit_or, bit_xor}
use netrpc.Base.{
  ℕ, zero, suc, ◌+◌, ◌-◌, ◌*◌, ◌/◌, ◌%◌, ◌^◌, ◌<◌, Bytes, Bool, true, false, not, ◌&&◌, ◌||◌, ◌==◌,
  ltb, leb, Result, ok, err, fault, out_of_fuel, ◌>>=◌, Option, none, some, List, [], ◌∷◌, ◌++◌,
  length, take, drop, get_elem?, ℤ, pos, negsuc, to_int32, if◌then◌else◌,
}
use netrpc.Murmur.{word, rotate_left}

abbrev t_table : List ℕ
t_table =
    0xd76aa478 ∷ 0xe8c7b756 ∷ 0x242070db ∷ 0xc1bdceee ∷ 0xf57c0faf ∷ 0x4787c62a ∷ 0xa8304613
    ∷ 0xfd469501 ∷ 0x698098d8 ∷ 0x8b44f7af ∷ 0xffff5bb1 ∷ 0x895cd7be ∷ 0x6b901122 ∷ 0xfd987193
    ∷ 0xa679438e ∷ 0x49b40821 ∷ 0xf61e2562 ∷ 0xc040b340 ∷ 0x265e5a51 ∷ 0xe9b6c7aa ∷ 0xd62f105d
    ∷ 0x02441453 ∷ 0xd8a1e681 ∷ 0xe7d3fbc8 ∷ 0x21e1cde6 ∷ 0xc33707d6 ∷ 0xf4d50d87 ∷ 0x455a14ed
    ∷ 0xa9e3e905 ∷ 0xfcefa3f8 ∷ 0x676f02d9 ∷ 0x8d2a4c8a ∷ 0xfffa3942 ∷ 0x8771f681 ∷ 0x6d9d6122
    ∷ 0xfde5380c ∷ 0xa4beea44 ∷ 0x4bdecfa9 ∷ 0xf6bb4b60 ∷ 0xbebfbc70 ∷ 0x289b7ec6 ∷ 0xeaa127fa
    ∷ 0xd4ef3085 ∷ 0x04881d05 ∷ 0xd9d4d039 ∷ 0xe6db99e5 ∷ 0x1fa27cf8 ∷ 0xc4ac5665 ∷ 0xf4292244
    ∷ 0x432aff97 ∷ 0xab9423a7 ∷ 0xfc93a039 ∷ 0x655b59c3 ∷ 0x8f0ccc92 ∷ 0xffeff47d ∷ 0x85845dd1
    ∷ 0x6fa87e4f ∷ 0xfe2ce6e0 ∷ 0xa3014314 ∷ 0x4e0811a1 ∷ 0xf7537e82 ∷ 0xbd3af235 ∷ 0x2ad7d2bb
    ∷ 0xeb86d391 ∷ []

abbrev s_table : List ℕ
s_table =
    7 ∷ 12 ∷ 17 ∷ 22 ∷ 7 ∷ 12 ∷ 17 ∷ 22 ∷ 7 ∷ 12 ∷ 17 ∷ 22 ∷ 7 ∷ 12 ∷ 17 ∷ 22 ∷ 5 ∷ 9 ∷ 14 ∷ 20 ∷ 5
    ∷ 9 ∷ 14 ∷ 20 ∷ 5 ∷ 9 ∷ 14 ∷ 20 ∷ 5 ∷ 9 ∷ 14 ∷ 20 ∷ 4 ∷ 11 ∷ 16 ∷ 23 ∷ 4 ∷ 11 ∷ 16 ∷ 23 ∷ 4 ∷ 11
    ∷ 16 ∷ 23 ∷ 4 ∷ 11 ∷ 16 ∷ 23 ∷ 6 ∷ 10 ∷ 15 ∷ 21 ∷ 6 ∷ 10 ∷ 15 ∷ 21 ∷ 6 ∷ 10 ∷ 15 ∷ 21 ∷ 6 ∷ 10
    ∷ 15 ∷ 21 ∷ []

abbrev x_table : List ℕ
x_table =
    0 ∷ 1 ∷ 2 ∷ 3 ∷ 4 ∷ 5 ∷ 6 ∷ 7 ∷ 8 ∷ 9 ∷ 10 ∷ 11 ∷ 12 ∷ 13 ∷ 14 ∷ 15 ∷ 1 ∷ 6 ∷ 11 ∷ 0 ∷ 5 ∷ 10
    ∷ 15 ∷ 4 ∷ 9 ∷ 14 ∷ 3 ∷ 8 ∷ 13 ∷ 2 ∷ 7 ∷ 12 ∷ 5 ∷ 8 ∷ 11 ∷ 14 ∷ 1 ∷ 4 ∷ 7 ∷ 10 ∷ 13 ∷ 0 ∷ 3 ∷ 6
    ∷ 9 ∷ 12 ∷ 15 ∷ 2 ∷ 0 ∷ 7 ∷ 14 ∷ 5 ∷ 12 ∷ 3 ∷ 10 ∷ 1 ∷ 8 ∷ 15 ∷ 6 ∷ 13 ∷ 4 ∷ 11 ∷ 2 ∷ 9 ∷ []

-- An entry of a table; the code's indices are below 64.
abbrev entry : List ℕ → ℕ → ℕ
entry table i = elim (get_elem? table i) [ none ↦ 0 | some n ↦ n ]

abbrev complement : ℕ → ℕ
complement x = 2 ^ 32 - 1 - word x

unfoldable pub f_function : ℕ → ℕ → ℕ → ℕ
f_function x y z = bit_or (bit_and x y) (bit_and (complement x) z)

unfoldable pub g_function : ℕ → ℕ → ℕ → ℕ
g_function x y z = bit_or (bit_and x z) (bit_and y (complement z))

unfoldable pub h_function : ℕ → ℕ → ℕ → ℕ
h_function x y z = bit_xor (bit_xor x y) z

unfoldable pub i_function : ℕ → ℕ → ℕ → ℕ
i_function x y z = bit_xor y (bit_or x (complement z))

-- FF, GG, HH and II, with F, G, H and I: the new `a`.
unfoldable pub mix : (ℕ → ℕ → ℕ → ℕ) → ℕ → ℕ → ℕ → ℕ → ℕ → ℕ → ℕ
mix func a b c d x n =
    let temp = word (func b c d + a + x + entry t_table n) in
    word (b + rotate_left temp (entry s_table n))

-- `a`, `b`, `c` and `d`, also as the four words of the state.
pub record Words : Type 0 where
  pub a : ℕ
  pub b : ℕ
  pub c : ℕ
  pub d : ℕ

-- x[k]: the k-th word of a block.
unfoldable pub word_of : Bytes → ℕ → ℕ
word_of block k = elim (take 4 (drop (4 * k) block)) [
  | x ∷ y ∷ z ∷ w ∷ _ ↦ x + y * 2 ^ 8 + z * 2 ^ 16 + w * 2 ^ 24
  | _ ↦ 0
]

-- One pass of the four loops, from the index `n`.
unfoldable pub mix_four : (ℕ → ℕ → ℕ → ℕ) → Bytes → ℕ → Words → Words
mix_four func block n w =
    let a = mix func w.a w.b w.c w.d (word_of block (entry x_table n)) n in
    let d = mix func w.d a w.b w.c (word_of block (entry x_table (n + 1))) (n + 1) in
    let c = mix func w.c d a w.b (word_of block (entry x_table (n + 2))) (n + 2) in
    let b = mix func w.b c d a (word_of block (entry x_table (n + 3))) (n + 3) in
    record { a = a; b = b; c = c; d = d }

-- The four passes of one loop.
unfoldable pub mix_round : (ℕ → ℕ → ℕ → ℕ) → Bytes → ℕ → Words → Words
mix_round func block n w =
    mix_four func block (n + 12)
      (mix_four func block (n + 8) (mix_four func block (n + 4) (mix_four func block n w)))

unfoldable pub calculate_block : Bytes → Words → Words
calculate_block block state =
    let mixed = mix_round i_function block 48 (
      mix_round h_function block 32
        (mix_round g_function block 16 (mix_round f_function block 0 state))) in
    record {
      a = word (state.a + mixed.a);
      b = word (state.b + mixed.b);
      c = word (state.c + mixed.c);
      d = word (state.d + mixed.d);
    }

-- resetVector
abbrev pub initial : Words
initial = record { a = 0x67452301; b = 0xefcdab89; c = 0x98badcfe; d = 0x10325476 }

-- The loop that pushes zeros, for the size in bits, on fuel.
unfoldable pub pad_zeros : ℕ → ℕ → Result Bytes
pad_zeros zero new_size = err out_of_fuel
pad_zeros (suc fuel) new_size = elim (new_size % 512 == 448) [
  | true ↦ ok []
  | false ↦ do rest ← pad_zeros fuel (new_size + 8); ok (0 ∷ rest)
]

-- The same loop for a size that is `k` below 0, whose remainder is not 448 before it gets there.
unfoldable pub pad_below : ℕ → ℕ → Result Bytes
pad_below zero k = err out_of_fuel
pad_below (suc fuel) k = elim (leb k 8) [
  | true ↦ do rest ← pad_zeros 65 (8 - k); ok (0 ∷ rest)
  | false ↦ do rest ← pad_below fuel (k - 8); ok (0 ∷ rest)
]

-- What the first `if` of padding pushes, for an int.
unfoldable pub fill : ℤ → Result Bytes
fill (pos new_size) = elim (new_size % 512 == 448) [
  | true ↦ ok []
  | false ↦ do zeros ← pad_zeros 65 (new_size + 8); ok (0x80 ∷ zeros)
]
fill (negsuc n) = elim (leb n 7) [
  | true ↦ do zeros ← pad_zeros 65 (7 - n); ok (0x80 ∷ zeros)
  | false ↦ do zeros ← pad_below n (n - 7); ok (0x80 ∷ zeros)
]

-- An int as a uint64_t.
unfoldable pub to_uint64 : ℤ → ℕ
to_uint64 (pos n) = n
to_uint64 (negsuc n) = 2 ^ 64 - (n + 1)

-- The bytes of a uint64_t in memory.
unfoldable pub memory_bytes : ℕ → ℕ → Bytes
memory_bytes zero n = []
memory_bytes (suc k) n = n % 256 ∷ memory_bytes k (n / 256)

unfoldable pub padding : Bytes → Result Bytes
padding text = do
  let file_bit_size = to_int32 (length text * 8)
  filled ← fill file_bit_size
  ok (text ++ (filled ++ memory_bytes 8 (to_uint64 file_bit_size)))

-- The loop over the blocks, on fuel; a last block of less than 64 bytes is read past its end.
unfoldable pub compute : ℕ → Bytes → Words → Result Words
compute fuel [] state = ok state
compute zero (x ∷ xs) state = err out_of_fuel
compute (suc fuel) (x ∷ xs) state = elim (leb 64 (length (x ∷ xs))) [
  | true ↦ compute fuel (drop 64 (x ∷ xs)) (calculate_block (take 64 (x ∷ xs)) state)
  | false ↦ err fault
]

-- The loop of genDigest over one word, on fuel.
unfoldable pub digest_word : ℕ → ℕ → Result Bytes
digest_word zero n = err out_of_fuel
digest_word (suc fuel) n = elim (n == 0) [
  | true ↦ ok []
  | false ↦ do rest ← digest_word fuel (n / 256); ok (bit_and n 0xff ∷ rest)
]

unfoldable pub gen_digest : Words → Result Bytes
gen_digest state = do
  first ← digest_word 5 state.a
  second ← digest_word 5 state.b
  third ← digest_word 5 state.c
  fourth ← digest_word 5 state.d
  ok (first ++ (second ++ (third ++ fourth)))

unfoldable pub digest : Bytes → Result Bytes
digest src = do
  padded ← padding src
  state ← compute (length padded) padded initial
  gen_digest state

-- isalpha, isdigit and tolower of ASCII characters.
unfoldable pub is_hex_digit : ℕ → Bool
is_hex_digit c =
    let lower = if leb b'A' c && leb c b'Z' then c + 32 else c in
    let alpha = leb b'a' lower && leb lower b'z' in
    if alpha then leb b'a' lower && leb lower b'f' else leb b'0' c && leb c b'9'

unfoldable pub judge_hex_string : Bytes → Bool
judge_hex_string [] = true
judge_hex_string (c ∷ cs) = is_hex_digit c && judge_hex_string cs
