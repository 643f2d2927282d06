-- ===== src/TinyPb/Samples.antt =====
-- A test that says whether a message is sendable, and the messages that the tests send.
use netrpc.Base.{
  ℕ, Bytes, pos, codes, List, [], ◌∷◌, ◌≡◌, true, arith, length, Bool, ltb, not, ◌&&◌, ◌==◌, ◌^◌, ℤ,
  negsuc, IsInt32,
}
use netrpc.TinyPb.Protocol.{TinyPbProtocol, new_message}
use netrpc.TinyPb.Encoder.{with_msg_id, total_len}
use netrpc.TinyPb.Cursor.{NoNul}
use netrpc.TinyPb.Frame.{IsSendable}
use netrpc.TinyPb.RoundTrip.{AllSendable}

abbrev pub no_nul : Bytes → Bool
no_nul [] = true
no_nul (c ∷ cs) = not (c == 0) && no_nul cs

NoNul-of_no_nul : (s : Bytes) → no_nul s ≡ true → NoNul s
NoNul-of_no_nul [] e = tt
NoNul-of_no_nul (c ∷ cs) e = (ground arith, NoNul-of_no_nul cs (ground arith))

abbrev pub int32 : ℤ → Bool
int32 (pos n) = ltb n (2 ^ 31)
int32 (negsuc n) = ltb n (2 ^ 31)

IsInt32-of_int32 : (a : ℤ) → int32 a ≡ true → IsInt32 a
IsInt32-of_int32 (pos n) e = ground arith
IsInt32-of_int32 (negsuc n) e = ground arith

abbrev pub text : Bytes → ℕ → Bool
text s cap = no_nul s && ltb (length s) cap

abbrev pub sendable : TinyPbProtocol → Bool
sendable m =
    text m.msg_id 100
    && (text m.method_name 512
        && (text m.err_info 512 && (int32 m.err_code && ltb (total_len m) (2 ^ 31))))

pub IsSendable-of_sendable : (m : TinyPbProtocol) → sendable m ≡ true → IsSendable m
IsSendable-of_sendable m e = record {
  id_clean = NoNul-of_no_nul m.msg_id (ground arith);
  id_short = ground arith;
  name_clean = NoNul-of_no_nul m.method_name (ground arith);
  name_short = ground arith;
  info_clean = NoNul-of_no_nul m.err_info (ground arith);
  info_short = ground arith;
  code_fits = IsInt32-of_int32 m.err_code (ground arith);
  small = ground arith;
}

abbrev pub all_sendable : List TinyPbProtocol → Bool
all_sendable [] = true
all_sendable (m ∷ ms) = sendable (with_msg_id m) && all_sendable ms

pub AllSendable-of_all : (ms : List TinyPbProtocol) → all_sendable ms ≡ true → AllSendable ms
AllSendable-of_all [] e = tt
AllSendable-of_all (m ∷ ms) e =
    (IsSendable-of_sendable (with_msg_id m) (ground arith), AllSendable-of_all ms (ground arith))

abbrev pub order : TinyPbProtocol
order = record new_message {
  msg_id = codes "7";
  method_name = codes "Order.makeOrder";
  pb_data = 8 ∷ 100 ∷ [];
}

abbrev pub orders : List TinyPbProtocol
orders = order ∷ record order { msg_id = []; err_info = codes "no" } ∷ []
