-- ===== src/Rpc/Controller.antt =====
-- RpcController of netrpc/net/rpc/rpc_controller.{h,cc}: the state of one call. The getters are the
-- fields; an address is its text.
use netrpc.Base.{Bytes, ℤ, pos, Bool, true, false, Option, none, []}

pub record RpcController : Type 0 where
  pub error_code : ℤ
  pub error_info : Bytes
  pub msg_id : Bytes
  pub is_failed : Bool
  pub is_canceled : Bool
  pub is_finished : Bool
  pub local_addr : Option Bytes
  pub peer_addr : Option Bytes
  pub timeout : ℤ
  pub max_retry : ℤ

unfoldable pub new_controller : RpcController
new_controller = record {
  error_code = pos 0;
  error_info = [];
  msg_id = [];
  is_failed = false;
  is_canceled = false;
  is_finished = false;
  local_addr = none;
  peer_addr = none;
  timeout = pos 1000;
  max_retry = pos 2;
}

-- Reset leaves the number of retries.
unfoldable pub reset : RpcController → RpcController
reset c = record c {
  error_code = pos 0;
  error_info = [];
  msg_id = [];
  is_failed = false;
  is_canceled = false;
  is_finished = false;
  local_addr = none;
  peer_addr = none;
  timeout = pos 1000;
}

unfoldable pub set_finished : Bool → RpcController → RpcController
set_finished value c = record c { is_finished = value }

unfoldable pub start_cancel : RpcController → RpcController
start_cancel c = set_finished true (record c { is_canceled = true; is_failed = true })

unfoldable pub set_failed : Bytes → RpcController → RpcController
set_failed reason c = record c { error_info = reason; is_failed = true }

unfoldable pub set_error : ℤ → Bytes → RpcController → RpcController
set_error error_code error_info c = record c {
  error_code = error_code;
  error_info = error_info;
  is_failed = true;
}

unfoldable pub set_msg_id : Bytes → RpcController → RpcController
set_msg_id msg_id c = record c { msg_id = msg_id }

unfoldable pub set_local_addr : Option Bytes → RpcController → RpcController
set_local_addr addr c = record c { local_addr = addr }

unfoldable pub set_peer_addr : Option Bytes → RpcController → RpcController
set_peer_addr addr c = record c { peer_addr = addr }

unfoldable pub set_timeout : ℤ → RpcController → RpcController
set_timeout timeout c = record c { timeout = timeout }

unfoldable pub set_max_retry : ℤ → RpcController → RpcController
set_max_retry max_retry c = record c { max_retry = max_retry }
