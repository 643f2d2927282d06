-- ===== src/StringCoder.antt =====
-- StringProtocol and StringCoder of netrpc/net/coder/string_coder.h: a message is the bytes of its
-- text, and decode takes all that the buffer holds for one message.
pub mod Merge
mod Tests
use netrpc.Base.{ℕ, Bytes, codes, Result, ok, ◌>>=◌, ℤ, pos, pos_part, List, [], ◌∷◌, ◌++◌}
use netrpc.TcpBuffer.{TcpBuffer, read_able, read_from_buffer, write_to_buffer}

pub record StringProtocol : Type 0 where
  pub msg_id : Bytes
  pub info : Bytes

unfoldable pub encode_strings : List StringProtocol → TcpBuffer → Result TcpBuffer
encode_strings [] out_buffer = ok out_buffer
encode_strings (msg ∷ messages) out_buffer = do
  written ← write_to_buffer out_buffer msg.info
  encode_strings messages written

-- What decode pushes for the bytes it has read.
abbrev pub add_text :
    List StringProtocol → Bytes × TcpBuffer → Result (List StringProtocol × TcpBuffer)
add_text out_messages (re, rest) =
    ok (out_messages ++ (record { msg_id = codes "123456"; info = re } ∷ []), rest)

-- decode appends one message, with all that is readable.
unfoldable pub decode_strings :
    List StringProtocol → TcpBuffer → Result (List StringProtocol × TcpBuffer)
decode_strings out_messages buffer =
    read_from_buffer buffer [] (read_able buffer) >>= add_text out_messages
