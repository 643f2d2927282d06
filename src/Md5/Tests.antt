-- ===== src/Md5/Tests.antt =====
-- Digests of short texts.
use netrpc.Base.{to_int32, ◌≤◌, ◌^◌, ◌↔◌, Bytes, arith, ◌≡◌, refl, codes, ok, [], ◌∷◌, length}
use netrpc.Murmur.{rotate_left}
use netrpc.Md5.{
  Words, initial, f_function, g_function, h_function, i_function, mix, word_of, mix_four, mix_round,
  calculate_block, pad_zeros, fill, to_uint64, memory_bytes, padding, compute, digest_word,
  gen_digest, digest,
}
use netrpc.Md5.Lengths.{digest-length}

digest_abc :
    digest (codes "abc")
    ≡ ok (
        144 ∷ 1 ∷ 80 ∷ 152 ∷ 60 ∷ 210 ∷ 79 ∷ 176 ∷ 214 ∷ 150 ∷ 63 ∷ 125 ∷ 40 ∷ 225 ∷ 127 ∷ 114 ∷ [])
unfolding f_function g_function h_function i_function mix word_of mix_four mix_round calculate_block
    pad_zeros fill to_uint64 to_int32 memory_bytes padding compute digest_word gen_digest digest
    rotate_left
digest_abc = refl

digest-length_example :
    (padded : Bytes) × (w : Words) × (bytes : Bytes) × (padding (codes "abc") ≡ ok padded)
    × (compute (length padded) padded initial ≡ ok w)
    × (digest (codes "abc") ≡ ok bytes)
    × (length bytes ≤ 16)
    × ((length bytes ≡ 16) ↔ ((2 ^ 24 ≤ w.a) × (2 ^ 24 ≤ w.b) × (2 ^ 24 ≤ w.c) × (2 ^ 24 ≤ w.d)))
digest-length_example = digest-length (codes "abc") (omega arith)
