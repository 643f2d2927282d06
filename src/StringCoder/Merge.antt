-- ===== src/StringCoder/Merge.antt =====
-- Messages that pass through StringCoder arrive as one.
use mathlib.Core.List.{append_assoc, append-nil}
use netrpc.Base.{
  ◌≡◌, refl, sym, ◌∙◌, ap, Bytes, codes, ok, ◌>>=◌, pos, -ℤ_pos, List, [], ◌∷◌, ◌++◌, length, take,
  take-all, drop-all, arith, if◌then◌else◌, ltb, lt→ltb,
}
use netrpc.TcpBuffer.{TcpBuffer, read_able, read_from_buffer}
use netrpc.TcpBuffer.Contents.{readable, IsValid, length-readable}
use netrpc.TcpBuffer.Safety.{write_to_buffer-appends}
use netrpc.TcpBuffer.Reads.{read_from_buffer_lem}
use netrpc.StringCoder.{StringProtocol, encode_strings, decode_strings, add_text}

-- The texts one behind the other.
abbrev pub all_info : List StringProtocol → Bytes
all_info [] = []
all_info (m ∷ ms) = m.info ++ all_info ms

encode_strings-readable :
    (ms : List StringProtocol) (b : TcpBuffer)
    → IsValid b
    → (b' : TcpBuffer) × (encode_strings ms b ≡ ok b')
      × IsValid b'
      × (readable b' ≡ readable b ++ all_info ms)
unfolding encode_strings
encode_strings-readable [] b v = (b, refl, v, sym (append-nil (readable b)))
encode_strings-readable (m ∷ ms) b v =
    let (b₁, e₁, h₁) = write_to_buffer-appends b m.info v in
    let (b₂, e₂, v₂, r₂) = encode_strings-readable ms b₁ h₁.valid in
    (
      b₂,
      ap (λ r. r >>= encode_strings ms) e₁ ∙ e₂,
      v₂,
      r₂
          ∙ ap (λ (x : Bytes). x ++ all_info ms) h₁.bytes_eq
          ∙ append_assoc (readable b) m.info (all_info ms),
    )

-- What is read of a text, taken whole.
read_whole : (x : Bytes) → (if ltb 0 (length x) then take (length x) x else []) ≡ x
read_whole [] = refl
read_whole (c ∷ cs) =
    rw (lt→ltb 0 (length (c ∷ cs)) (omega arith))
      (take-all (length (c ∷ cs)) (c ∷ cs) (omega arith))

-- Messages that are encoded into a valid buffer that holds nothing come out of it, by one call of
-- decode, as a single message: its text is all of theirs, one behind the other, and its id is the
-- constant one, whatever theirs were. Nothing is left over.
pub decode_strings-encode_strings :
    (ms out : List StringProtocol) (b : TcpBuffer)
    → IsValid b
    → readable b ≡ []
    → (rest : TcpBuffer) × (encode_strings ms b >>= decode_strings out
        ≡ ok (out ++ (record { msg_id = codes "123456"; info = all_info ms } ∷ []), rest))
      × (readable rest ≡ [])
unfolding decode_strings read_able
decode_strings-encode_strings ms out b v empty =
    let (b₁, e₁, v₁, r₁) = encode_strings-readable ms b v in
    let held : readable b₁ ≡ all_info ms = r₁ ∙ ap (λ (x : Bytes). x ++ all_info ms) empty in
    let (rest, e₂, h₂) = read_from_buffer_lem b₁ [] (length (readable b₁)) v₁ in
    let able : read_able b₁ ≡ pos (length (readable b₁)) =
      -ℤ_pos b₁.write_index b₁.read_index v₁.ordered ∙ ap pos (sym (length-readable b₁ v₁)) in
    (
      rest,
      ap (λ r. r >>= decode_strings out) e₁
          ∙ ap (λ n. read_from_buffer b₁ [] n >>= add_text out) able
          ∙ ap (λ r. r >>= add_text out) e₂
          ∙ ap (λ x. add_text out (x, rest)) (read_whole (readable b₁) ∙ held),
      h₂.bytes_eq ∙ drop-all (length (readable b₁)) (readable b₁) (omega arith),
    )
