-- ===== src/TinyPb/Decoder.antt =====
-- TinyPBCoder::decode of netrpc/net/coder/tinypb_coder.cc. The `while (1)` runs on fuel; an index
-- that an attacker's length moves outside the vector is a fault.
use netrpc.Base.{
  ℕ, zero, suc, ◌+◌, ◌-◌, Bytes, Result, ok, err, fault, out_of_fuel, ◌>>=◌, ℤ, pos, pos_part, ◌+ℤ◌,
  ◌-ℤ◌, leb_ℤ, to_size, leb, ltb, ◌==◌, ◌&&◌, if◌then◌else◌, length, at, slice,
  get_int32_from_net_byte, true, Option, none, some, List, [], ◌∷◌, ◌++◌,
}
use netrpc.TcpBuffer.{TcpBuffer, move_read_index}
use netrpc.TinyPb.Protocol.{TinyPbProtocol, new_message, pb_start, pb_end}

-- `start_index`, `end_index` and `pk_len` when the search for a frame stops at one.
pub record Found : Type 0 where
  pub start_index : ℕ
  pub end_index : ℕ
  pub pk_len : ℤ

-- Its body behind the two tests: the length, the index of the last byte, and the byte there. The index
-- is the exact sum, also where it is more than an int holds, which the code leaves undefined.
unfoldable pub frame_from : Bytes → ℕ → ℕ → Result (Option Found)
frame_from tmp write_index i = do
  pk_len ← get_int32_from_net_byte tmp (i + 1)
  let j = pos i +ℤ pk_len -ℤ pos 1
  if leb_ℤ (pos write_index) j then ok none else do
    d ← at tmp j
    ok (
        if d == pb_end
        then some (record { start_index = i; end_index = pos_part j; pk_len = pk_len })
        else none)

-- One round of the `for`: `some` is its `break`, `none` goes on with the next index.
unfoldable pub frame_at : Bytes → ℕ → ℕ → Result (Option Found)
frame_at tmp write_index i = do
  c ← at tmp (pos i)
  if c == pb_start && ltb (i + 1) write_index then frame_from tmp write_index i else ok none

-- The `for`, with the rounds that are left.
unfoldable pub find_frame : Bytes → ℕ → ℕ → ℕ → Result (Option Found)
find_frame tmp write_index zero i = ok none
find_frame tmp write_index (suc rounds) i = do
  r ← frame_at tmp write_index i
  elim r [ none ↦ find_frame tmp write_index rounds (i + 1) | some f ↦ ok (some f) ]

unfoldable pub until_nul : Bytes → Bytes
until_nul [] = []
until_nul (c ∷ cs) = if c == 0 then [] else c ∷ until_nul cs

-- `char a[cap] = {0}`, memcpy of `src` to it, and std::string(a): a fault where the copy runs over
-- the array or leaves no NUL in it.
unfoldable pub c_string : ℕ → Bytes → Result Bytes
c_string cap src =
    if leb (length src) cap && ltb (length (until_nul src)) cap
    then ok (until_nul src)
    else err fault

-- A length at `i` and the text behind it, with the index past them.
unfoldable pub read_text : Bytes → ℕ → ℕ → Result (ℤ × Bytes × ℕ)
read_text tmp i cap = do
  len ← get_int32_from_net_byte tmp i
  n ← to_size len
  raw ← slice tmp (i + 4) n
  text ← c_string cap raw
  ok (len, text, i + 4 + n)

-- The error information and the payload.
unfoldable pub parse_rest : Bytes → TinyPbProtocol → ℕ → Result (Option TinyPbProtocol)
parse_rest tmp m error_info_len_index = do
  (err_info_len, err_info, pd_data_index) ← read_text tmp error_info_len_index 512
  let pb_data_len = m.pk_len -ℤ m.method_name_len -ℤ m.msg_id_len -ℤ err_info_len -ℤ pos 2 -ℤ pos 24
  n ← to_size pb_data_len
  pb_data ← slice tmp pd_data_index n
  ok (
      some (record m {
        err_info_len = err_info_len;
        err_info = err_info;
        pb_data = pb_data;
        parse_success = true;
      }))

-- The fields behind the method name; `none` is a `continue` with parse_success = false.
unfoldable pub parse_tail : Bytes → Found → TinyPbProtocol → ℕ → Result (Option TinyPbProtocol)
parse_tail tmp f m err_code_index = if leb f.end_index err_code_index then ok none else do
  err_code ← get_int32_from_net_byte tmp err_code_index
  if leb f.end_index (err_code_index + 4)
      then ok none
      else parse_rest tmp (record m { err_code = err_code }) (err_code_index + 4)

unfoldable pub parse_method : Bytes → Found → TinyPbProtocol → ℕ → Result (Option TinyPbProtocol)
parse_method tmp f m method_name_len_index =
    if leb f.end_index method_name_len_index then ok none else do
      (method_name_len, method_name, err_code_index) ← read_text tmp method_name_len_index 512
      parse_tail tmp f (record m { method_name_len = method_name_len; method_name = method_name })
          err_code_index

unfoldable pub parse_message : Bytes → Found → Result (Option TinyPbProtocol)
parse_message tmp f =
    let msg_id_len_index = f.start_index + 1 + 4 in
    if leb f.end_index msg_id_len_index then ok none else do
      (msg_id_len, msg_id, method_name_len_index) ← read_text tmp msg_id_len_index 100
      parse_method tmp f
          (record new_message { pk_len = f.pk_len; msg_id_len = msg_id_len; msg_id = msg_id })
          method_name_len_index

abbrev pub push_parsed : List TinyPbProtocol → Option TinyPbProtocol → List TinyPbProtocol
push_parsed out none = out
push_parsed out (some m) = out ++ (m ∷ [])

-- `while (1)`: `tmp` is the vector before the read index moves.
unfoldable pub decode :
    ℕ → List TinyPbProtocol → TcpBuffer → Result (List TinyPbProtocol × TcpBuffer)
decode zero out b = err out_of_fuel
decode (suc fuel) out b = do
  found ← find_frame b.buffer b.write_index (b.write_index - b.read_index) b.read_index
  elim found [
    | none ↦ ok (out, b)
    | some f ↦ do
      b' ← move_read_index b (pos f.end_index -ℤ pos f.start_index +ℤ pos 1)
      m ← parse_message b.buffer f
      decode fuel (push_parsed out m) b'
  ]
