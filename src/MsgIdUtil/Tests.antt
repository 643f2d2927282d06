-- ===== src/MsgIdUtil/Tests.antt =====
-- An id that carries.
use netrpc.Base.{◌≡◌, Bytes, codes, ok, none, length, All, arith}
use netrpc.MsgIdUtil.{MsgIdState, gen_msg_id}
use netrpc.MsgIdUtil.Counter.{IsDigit, value, gen_msg_id-next}

abbrev carrying : MsgIdState
carrying = record { msg_id_no = codes "0199"; max_msg_id_no = codes "9999" }

gen_msg_id-next_example :
    (id : Bytes) × (gen_msg_id none carrying ≡ ok (id, record carrying { msg_id_no = id }))
    × (value id ≡ 200)
    × (length id ≡ 4)
    × All IsDigit id
gen_msg_id-next_example =
    gen_msg_id-next none carrying (ground arith) (λ e. cc) (λ e. ground arith) (λ e. omega arith)
