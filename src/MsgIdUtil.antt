-- ===== src/MsgIdUtil.antt =====
-- MsgIDUtil::GenMsgID of netrpc/common/msg_id_util.cc, for one thread. What is read from
-- /dev/urandom is an argument.
pub mod Counter
mod Tests
use netrpc.Base.{
  ℕ, zero, suc, ◌+◌, ◌%◌, Bytes, codes, Result, ok, err, fault, ◌>>=◌, Option, none, some, List, [],
  ◌∷◌, ◌++◌, map, length, replicate, ◌==◌, ◌||◌, if◌then◌else◌,
}
use netrpc.StdMap.{bytes_eq}

-- t_msg_id_no and t_max_msg_id_no
pub record MsgIdState : Type 0 where
  pub msg_id_no : Bytes
  pub max_msg_id_no : Bytes

-- The else branch: the last character that is no '9' goes up by one, and those behind it become
-- '0'; `none` where all are '9', since the index then runs below the string.
unfoldable pub increment : Bytes → Option Bytes
increment [] = none
increment (c ∷ cs) = elim (increment cs) [
  | some ds ↦ some (c ∷ ds)
  | none ↦ if c == b'9' then none else some ((c + 1) ∷ replicate (length cs) b'0')
]

unfoldable pub digit_of : ℕ → ℕ
digit_of x = x % 10 + b'0'

-- A new number from 20 random bytes; `none` is a read that gives fewer.
unfoldable pub draw : Option Bytes → MsgIdState → Bytes × MsgIdState
draw none s = ([], s)
draw (some res) s =
    let drawn = map digit_of res in
    (
      drawn,
      record { msg_id_no = drawn; max_msg_id_no = s.max_msg_id_no ++ replicate (length res) b'9' },
    )

unfoldable pub advance : MsgIdState → Result (Bytes × MsgIdState)
advance s = elim (increment s.msg_id_no) [
  | none ↦ err fault
  | some next ↦ ok (next, record s { msg_id_no = next })
]

unfoldable pub gen_msg_id : Option Bytes → MsgIdState → Result (Bytes × MsgIdState)
gen_msg_id random s =
    if bytes_eq s.msg_id_no [] || bytes_eq s.msg_id_no s.max_msg_id_no
    then ok (draw random s)
    else advance s
