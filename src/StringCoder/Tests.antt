-- ===== src/StringCoder/Tests.antt =====
-- Two messages.
use netrpc.Base.{◌≡◌, refl, ok, ◌>>=◌, codes, List, [], ◌∷◌, arith}
use netrpc.TcpBuffer.{TcpBuffer}
use netrpc.TcpBuffer.Contents.{readable, IsValid}
use netrpc.StringCoder.{StringProtocol, encode_strings, decode_strings}
use netrpc.StringCoder.Merge.{all_info, decode_strings-encode_strings}

abbrev empty : TcpBuffer
empty = record { read_index = 0; write_index = 0; size = 2; buffer = 0 ∷ 0 ∷ [] }

abbrev messages : List StringProtocol
messages =
    record { msg_id = codes "1"; info = codes "he" }
    ∷ record { msg_id = codes "2"; info = codes "llo" }
    ∷ []

empty-IsValid : IsValid empty
empty-IsValid = record { ordered = omega arith; inside = omega arith }

decode_strings-encode_strings_example :
    (rest : TcpBuffer) × (encode_strings messages empty >>= decode_strings []
      ≡ ok (record { msg_id = codes "123456"; info = all_info messages } ∷ [], rest))
    × (readable rest ≡ [])
decode_strings-encode_strings_example =
    decode_strings-encode_strings messages [] empty empty-IsValid refl
