-- ===== src/Rpc/Channel/Samples.antt =====
-- A call of Order.makeOrder on an address of the loopback interface, for the tests.
use netrpc.Base.{◌≡◌, refl, codes, true, none, some, []}
use netrpc.StdMap.{bytes_eq}
use netrpc.MsgIdUtil.{MsgIdState}
use netrpc.NetAddr.{IpNetAddr}
use netrpc.Tcp.Client.{success}
use netrpc.Rpc.Controller.{new_controller, set_msg_id}
use netrpc.Rpc.Channel.{RpcChannel, new_channel, init}
use netrpc.Rpc.Channel.CallMethod.{Call, take_msg_id}
use netrpc.Rpc.Channel.Outcome.{IsSent}

abbrev addr : IpNetAddr
addr = record { ip = codes "127.0.0.1"; port = 12346 }

abbrev pub channel : RpcChannel
channel = init true (new_channel (some addr) (set_msg_id (codes "99") new_controller))

abbrev pub ids : MsgIdState
ids = record { msg_id_no = []; max_msg_id_no = [] }

abbrev pub call : Call
call = record {
  has_controller = true;
  has_request = true;
  has_response = true;
  full_name = codes "Order.makeOrder";
  serialized = some (codes "price");
  run_time_msg_id = [];
  random = none;
  attempts = λ i. record { result = success; handled = [] };
}

pub channel-init : channel.is_init ≡ true
unfolding init new_channel
channel-init = refl

pub channel-fresh : channel.runs ≡ []
unfolding init new_channel
channel-fresh = refl

pub call-IsSent : IsSent call ids (codes "99") (codes "price") channel
unfolding take_msg_id bytes_eq init new_channel new_controller set_msg_id
call-IsSent = record {
  has_controller = refl;
  has_request = refl;
  has_response = refl;
  addr = addr;
  has_addr = refl;
  next_ids = ids;
  has_id = refl;
  is_open = (refl, refl, refl);
  is_serialized = refl;
  retries = 1;
  has_retries = refl;
  connects = refl;
}
