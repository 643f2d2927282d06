-- ===== src/TinyPb/Parse.antt =====
-- The fields of one frame of TinyPBCoder, as the decoder parses them from a known index.
use netrpc.Base.{
  ℕ, ◌+◌, ◌-◌, ◌<◌, ◌≡◌, refl, ap, Bytes, ok, pos, arith, to_int32-to_word, to_word, to_word-lt,
  ◌-ℤ◌, -ℤ_pos, length, ◌++◌, true, some, lt→leb,
}
use netrpc.TinyPb.Protocol.{TinyPbProtocol}
use netrpc.TinyPb.Encoder.{wire, total_len}
use netrpc.TinyPb.Decoder.{parse_rest, parse_tail, parse_method, parse_message}
use netrpc.TinyPb.Cursor.{At, At-slice, At-get_int32, read_text_ok}
use netrpc.TinyPb.Frame.{
  IsSendable, received, found, from_sum, from_info, from_code, from_name, At-id, At-name, At-code,
  At-info, At-data,
}

module _ (m : TinyPbProtocol) (rest tmp : Bytes) (i : ℕ) (s : IsSendable m)
    (h : At tmp i (wire m ++ rest)) where
  -- The size that the decoder computes for the payload.
  payload_size :
      pos (total_len m)
        -ℤ pos (length m.method_name)
        -ℤ pos (length m.msg_id)
        -ℤ pos (length m.err_info)
        -ℤ pos 2
        -ℤ pos 24
      ≡ pos (length m.pb_data)
  unfolding total_len
  payload_size =
      let t : ℕ = total_len m in
      let a : ℕ = length m.method_name in
      let b : ℕ = length m.msg_id in
      let c : ℕ = length m.err_info in
      rw
        (
          -ℤ_pos t a (omega arith),
          -ℤ_pos (t - a) b (omega arith),
          -ℤ_pos (t - a - b) c (omega arith),
          -ℤ_pos (t - a - b - c) 2 (omega arith),
          -ℤ_pos (t - a - b - c - 2) 24 (omega arith),
        )
        (ap pos (omega arith))

  parse_rest_received :
      (msg : TinyPbProtocol)
      → msg.pk_len ≡ pos (total_len m)
      → msg.method_name_len ≡ pos (length m.method_name)
      → msg.msg_id_len ≡ pos (length m.msg_id)
      → parse_rest tmp msg (i + 1 + 4 + 4 + length m.msg_id + 4 + length m.method_name + 4)
        ≡ ok (
            some (record msg {
              err_info_len = pos (length m.err_info);
              err_info = m.err_info;
              pb_data = m.pb_data;
              parse_success = true;
            }))
  unfolding parse_rest
  parse_rest_received msg a b c = rw (
    read_text_ok 512 m.err_info (m.pb_data ++ from_sum m rest) (At-info m rest tmp i s h)
        s.info_clean s.info_short (omega arith),
    a,
    b,
    c,
    payload_size,
    At-slice m.pb_data (from_sum m rest) (At-data m rest tmp i s h) (length m.pb_data) refl,
  )

  abbrev code_index : ℕ
  code_index = i + 1 + 4 + 4 + length m.msg_id + 4 + length m.method_name

  -- The fields up to the payload end before the last byte of the frame.
  index_bounds :
      (i + 1 + 4 < i + total_len m - 1)
      × (i + 1 + 4 + 4 + length m.msg_id < i + total_len m - 1)
      × (code_index < i + total_len m - 1)
      × (code_index + 4 < i + total_len m - 1)
  unfolding total_len
  index_bounds = omega arith

  parse_tail_received :
      (msg : TinyPbProtocol)
      → msg.pk_len ≡ pos (total_len m)
      → msg.method_name_len ≡ pos (length m.method_name)
      → msg.msg_id_len ≡ pos (length m.msg_id)
      → parse_tail tmp (found m rest tmp i s h) msg code_index
        ≡ ok (
            some (record msg {
              err_code = m.err_code;
              err_info_len = pos (length m.err_info);
              err_info = m.err_info;
              pb_data = m.pb_data;
              parse_success = true;
            }))
  unfolding parse_tail
  parse_tail_received msg a b c =
      rw
        (
          lt→leb (i + total_len m - 1) code_index index_bounds.2,
          At-get_int32 (to_word m.err_code) (from_info m rest) (At-code m rest tmp i s h)
              (to_word-lt m.err_code),
          to_int32-to_word m.err_code s.code_fits,
          lt→leb (i + total_len m - 1) (code_index + 4) index_bounds.3,
        )
        (parse_rest_received (record msg { err_code = m.err_code }) a b c)

  -- The parser returns the message that was sent.
  pub parse_message-received : parse_message tmp (found m rest tmp i s h) ≡ ok (some (received m))
  unfolding parse_message parse_method
  parse_message-received =
      rw
        (
          lt→leb (i + total_len m - 1) (i + 1 + 4) index_bounds.0,
          read_text_ok 100 m.msg_id (from_name m rest) (At-id m rest tmp i s h) s.id_clean
              s.id_short (omega arith),
          lt→leb (i + total_len m - 1) (i + 1 + 4 + 4 + length m.msg_id) index_bounds.1,
          read_text_ok 512 m.method_name (from_code m rest) (At-name m rest tmp i s h) s.name_clean
              s.name_short (omega arith),
        )
        (parse_tail_received _ refl refl refl)
