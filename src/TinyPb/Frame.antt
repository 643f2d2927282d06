-- ===== src/TinyPb/Frame.antt =====
-- One frame of TinyPBCoder at a known index: the decoder finds it, and parses the message that was
-- encoded.
use mathlib.Core.List.{append_assoc}
use netrpc.Base.{
  ℕ, ◌+◌, ◌-◌, ◌^◌, ◌≤◌, ◌<◌, ◌≡◌, refl, Bytes, ok, pos, arith, to_int32-small, to_word, IsInt32,
  ◌+ℤ◌, ◌-ℤ◌, +ℤ_pos, -ℤ_pos, net_bytes, length, length-append, [], ◌∷◌, ◌++◌, true, some, lt→leb,
  lt→ltb,
}
use netrpc.TinyPb.Protocol.{TinyPbProtocol, new_message, pb_start, pb_end}
use netrpc.TinyPb.Encoder.{wire, total_len}
use netrpc.TinyPb.Decoder.{Found, frame_from, frame_at}
use netrpc.TinyPb.Cursor.{
  At, At-skip, At-at, At-skip_word, At-get_int32, length-net_bytes, NoNul, At-skip_text,
}

-- What the decoder's fixed arrays and 32-bit lengths can carry: texts with no NUL that leave room
-- for the terminator, an int32_t error code, and a frame shorter than 2 ^ 31 bytes.
pub record IsSendable (m : TinyPbProtocol) : Type 0 where
  pub id_clean : NoNul m.msg_id
  pub id_short : length m.msg_id < 100
  pub name_clean : NoNul m.method_name
  pub name_short : length m.method_name < 512
  pub info_clean : NoNul m.err_info
  pub info_short : length m.err_info < 512
  pub code_fits : IsInt32 m.err_code
  pub small : total_len m < 2 ^ 31

-- The message that the decoder makes of it: the same texts, error code and payload, with their
-- lengths. The checksum of the frame is not read.
abbrev pub received : TinyPbProtocol → TinyPbProtocol
received m = record new_message {
  msg_id = m.msg_id;
  pk_len = pos (total_len m);
  msg_id_len = pos (length m.msg_id);
  method_name_len = pos (length m.method_name);
  method_name = m.method_name;
  err_code = m.err_code;
  err_info_len = pos (length m.err_info);
  err_info = m.err_info;
  pb_data = m.pb_data;
  parse_success = true;
}

-- The parts of a frame behind each of its fields, with the bytes that follow the frame.
module _ (m : TinyPbProtocol) (rest : Bytes) where
  abbrev pub from_sum : Bytes
  from_sum = net_bytes 1 ++ (pb_end ∷ rest)

  abbrev pub from_info : Bytes
  from_info = net_bytes (length m.err_info) ++ (m.err_info ++ (m.pb_data ++ from_sum))

  abbrev pub from_code : Bytes
  from_code = net_bytes (to_word m.err_code) ++ from_info

  abbrev pub from_name : Bytes
  from_name = net_bytes (length m.method_name) ++ (m.method_name ++ from_code)

  abbrev pub from_id : Bytes
  from_id = net_bytes (length m.msg_id) ++ (m.msg_id ++ from_name)

  pub wire-append : wire m ++ rest ≡ pb_start ∷ (net_bytes (total_len m) ++ from_id)
  unfolding wire
  wire-append = simp append_assoc

pub length-wire : (m : TinyPbProtocol) → length (wire m) ≡ total_len m
unfolding wire total_len
length-wire m = simp (length-append, length-net_bytes) (omega arith)

At-move : {tmp : Bytes} {i j : ℕ} {s : Bytes} → i ≡ j → At tmp i s → At tmp j s
At-move e h = rw (← e) h

module _ (m : TinyPbProtocol) (rest tmp : Bytes) (i : ℕ) (s : IsSendable m)
    (h : At tmp i (wire m ++ rest)) where
  At-start : At tmp i (pb_start ∷ (net_bytes (total_len m) ++ from_id m rest))
  At-start = rw (← wire-append m rest) h

  At-len : At tmp (i + 1) (net_bytes (total_len m) ++ from_id m rest)
  At-len = At-skip (pb_start ∷ []) (net_bytes (total_len m) ++ from_id m rest) At-start 1 refl

  pub At-id : At tmp (i + 1 + 4) (from_id m rest)
  At-id = At-skip_word (total_len m) (from_id m rest) At-len

  pub At-name : At tmp (i + 1 + 4 + 4 + length m.msg_id) (from_name m rest)
  At-name = At-skip_text m.msg_id (from_name m rest) At-id

  pub At-code :
      At tmp (i + 1 + 4 + 4 + length m.msg_id + 4 + length m.method_name) (from_code m rest)
  At-code = At-skip_text m.method_name (from_code m rest) At-name

  pub At-info :
      At tmp (i + 1 + 4 + 4 + length m.msg_id + 4 + length m.method_name + 4) (from_info m rest)
  At-info = At-skip_word (to_word m.err_code) (from_info m rest) At-code

  pub At-data :
      At tmp
        (i + 1 + 4 + 4 + length m.msg_id + 4 + length m.method_name + 4 + 4 + length m.err_info)
        (m.pb_data ++ from_sum m rest)
  At-data = At-skip_text m.err_info (m.pb_data ++ from_sum m rest) At-info

  pub At-end : At tmp (i + total_len m - 1) (pb_end ∷ rest)
  unfolding total_len
  At-end = At-move (omega arith) (
      At-skip_word 1 (pb_end ∷ rest)
        (At-skip m.pb_data (from_sum m rest) At-data (length m.pb_data) refl))

  -- Where the search for a frame stops.
  abbrev pub found : Found
  found = record { start_index = i; end_index = i + total_len m - 1; pk_len = pos (total_len m) }

  frame_end : pos i +ℤ pos (total_len m) -ℤ pos 1 ≡ pos (i + total_len m - 1)
  unfolding total_len
  frame_end = rw (+ℤ_pos i (total_len m)) (-ℤ_pos (i + total_len m) 1 (omega arith))

  pub total_pos : 26 ≤ total_len m
  unfolding total_len
  total_pos = omega arith

  frame_from-found : (w : ℕ) → i + total_len m ≤ w → frame_from tmp w i ≡ ok (some found)
  unfolding frame_from
  frame_from-found w room = rw (
    At-get_int32 (total_len m) (from_id m rest) At-len (omega (arith, s.small)),
    to_int32-small (total_len m) s.small,
    frame_end,
    lt→leb (w + 0) (i + total_len m - 1 + 0) (omega (arith, total_pos)),
    At-at At-end,
  )

  -- The search stops at the frame if all of it lies before the write index.
  pub frame_at-found : (w : ℕ) → i + total_len m ≤ w → frame_at tmp w i ≡ ok (some found)
  unfolding frame_at
  frame_at-found w room =
      rw (At-at At-start, lt→ltb (i + 1) w (omega (arith, total_pos)), frame_from-found w room)
