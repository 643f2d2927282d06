-- ===== src/TinyPb/Encoder.antt =====
-- TinyPBCoder::encodeTinyPB and encode of netrpc/net/coder/tinypb_coder.cc.
use netrpc.Base.{
  ℕ, ◌+◌, ◌%◌, ◌^◌, Bytes, Result, ok, err, fault, ◌>>=◌, pos_part, to_int32, to_word, leb,
  if◌then◌else◌, length, net_bytes, codes, true, List, [], ◌∷◌, ◌++◌,
}
use netrpc.TcpBuffer.{TcpBuffer, write_to_buffer}
use netrpc.TinyPb.Protocol.{TinyPbProtocol, pb_start, pb_end}

-- A message without an id is sent with this one.
abbrev pub default_msg_id : Bytes
default_msg_id = codes "123456789"

unfoldable pub with_msg_id : TinyPbProtocol → TinyPbProtocol
with_msg_id m = elim m.msg_id [ [] ↦ record m { msg_id = default_msg_id } | c ∷ cs ↦ m ]

-- `2 + 24 + …`, a size_t sum; the int `pk_len` is its low 32 bits.
unfoldable pub total_len : TinyPbProtocol → ℕ
total_len m = 2 + 24 + length m.msg_id + length m.method_name + length m.err_info + length m.pb_data

-- The bytes in the order in which they are copied; `pk_len`, the lengths and the error code go
-- through htonl.
unfoldable pub wire : TinyPbProtocol → Bytes
wire m =
    pb_start
    ∷ (net_bytes (total_len m)
        ++ (net_bytes (length m.msg_id)
            ++ (m.msg_id
                ++ (net_bytes (length m.method_name)
                    ++ (m.method_name
                        ++ (net_bytes (to_word m.err_code)
                            ++ (net_bytes (length m.err_info)
                                ++ (m.err_info
                                    ++ (m.pb_data ++ (net_bytes 1 ++ pb_end ∷ []))))))))))

-- The lengths that the encoder stores in the message.
unfoldable pub sealed : TinyPbProtocol → TinyPbProtocol
sealed m = record m {
  pk_len = to_int32 (total_len m % 2 ^ 32);
  msg_id_len = to_int32 (length m.msg_id % 2 ^ 32);
  method_name_len = to_int32 (length m.method_name % 2 ^ 32);
  err_info_len = to_int32 (length m.err_info % 2 ^ 32);
  parse_success = true;
}

-- malloc gives `pk_len` bytes (none where the int is negative): a longer copy is a fault.
unfoldable pub encode_tiny_pb : TinyPbProtocol → Result (Bytes × TinyPbProtocol)
encode_tiny_pb message =
    let m = with_msg_id message in
    if leb (length (wire m)) (pos_part (to_int32 (total_len m % 2 ^ 32)))
    then ok (wire m, sealed m)
    else err fault

-- The loop of `encode`. The bytes are never none: a frame has 26 bytes at least.
unfoldable pub encode : List TinyPbProtocol → TcpBuffer → Result (List TinyPbProtocol × TcpBuffer)
encode [] out_buffer = ok ([], out_buffer)
encode (message ∷ messages) out_buffer = do
  (buf, m) ← encode_tiny_pb message
  b ← write_to_buffer out_buffer buf
  (ms, b') ← encode messages b
  ok (m ∷ ms, b')
