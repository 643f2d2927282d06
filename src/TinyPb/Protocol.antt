-- ===== src/TinyPb/Protocol.antt =====
-- netrpc/net/coder/abstract_protocol.h and tinypb_protocol.{h,cc}: the message of the protocol.
-- A std::string is the list of its bytes.
use netrpc.Base.{ℕ, Bytes, ℤ, pos, Bool, false, []}

-- PB_START and PB_END
abbrev pub pb_start : ℕ
pb_start = 0x02

abbrev pub pb_end : ℕ
pb_end = 0x03

-- struct TinyPBProtocol, with m_msg_id of AbstractProtocol.
pub record TinyPbProtocol : Type 0 where
  pub msg_id : Bytes
  pub pk_len : ℤ
  pub msg_id_len : ℤ
  pub method_name_len : ℤ
  pub method_name : Bytes
  pub err_code : ℤ
  pub err_info_len : ℤ
  pub err_info : Bytes
  pub pb_data : Bytes
  pub check_sum : ℤ
  pub parse_success : Bool

-- std::make_shared<TinyPBProtocol>()
abbrev pub new_message : TinyPbProtocol
new_message = record {
  msg_id = [];
  pk_len = pos 0;
  msg_id_len = pos 0;
  method_name_len = pos 0;
  method_name = [];
  err_code = pos 0;
  err_info_len = pos 0;
  err_info = [];
  pb_data = [];
  check_sum = pos 0;
  parse_success = false;
}
