-- ===== src/Murmur.antt =====
-- murmur3_32 of netrpc/common/enc/murmurhash.cc, on the bytes of the key. A uint32_t is a number
-- below 2 ^ 32; the blocks are read on a little-endian machine.
use Prim.Native.Nat.{bit_or, bit_xor}
use netrpc.Base.{ℕ, ◌+◌, ◌-◌, ◌*◌, ◌/◌, ◌%◌, ◌^◌, Bytes, [], ◌∷◌, length}

abbrev pub word : ℕ → ℕ
word n = n % 2 ^ 32

-- `(k << r) | (k >> (32 - r))`
unfoldable pub rotate_left : ℕ → ℕ → ℕ
rotate_left k r = bit_or (word (k * 2 ^ r)) (k / 2 ^ (32 - r))

-- `k *= c1; k = (k << r1) | (k >> (32 - r1)); k *= c2;`
unfoldable pub scramble : ℕ → ℕ
scramble k = word (rotate_left (word (k * 0xcc9e2d51)) 15 * 0x1b873593)

-- The loop over the blocks, and the fall-through switch on the tail.
unfoldable pub mix_blocks : ℕ → Bytes → ℕ
mix_blocks hash (a ∷ b ∷ c ∷ d ∷ rest) =
    let k = a + b * 2 ^ 8 + c * 2 ^ 16 + d * 2 ^ 24 in
    mix_blocks (word (rotate_left (bit_xor hash (scramble k)) 13 * 5 + 0xe6546b64)) rest
mix_blocks hash (a ∷ b ∷ c ∷ []) =
    bit_xor hash (scramble (bit_xor (bit_xor (c * 2 ^ 16) (b * 2 ^ 8)) a))
mix_blocks hash (a ∷ b ∷ []) = bit_xor hash (scramble (bit_xor (b * 2 ^ 8) a))
mix_blocks hash (a ∷ []) = bit_xor hash (scramble a)
mix_blocks hash [] = hash

-- The last seven lines.
unfoldable pub avalanche : ℕ → ℕ
avalanche h₀ =
    let h₁ = bit_xor h₀ (h₀ / 2 ^ 16) in
    let h₂ = word (h₁ * 0x85ebca6b) in
    let h₃ = bit_xor h₂ (h₂ / 2 ^ 13) in let h₄ = word (h₃ * 0xc2b2ae35) in bit_xor h₄ (h₄ / 2 ^ 16)

unfoldable pub murmur3_32 : Bytes → ℕ → ℕ
murmur3_32 key seed = avalanche (bit_xor (mix_blocks seed key) (word (length key)))
