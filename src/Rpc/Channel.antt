-- ===== src/Rpc/Channel.antt =====
-- RpcChannel of netrpc/net/rpc/rpc_channel.{h,cc}. The caller gives one controller to Init and to
-- CallMethod, as the macro CALLRPC does; its closure leaves the controller and the channel alone.
-- What ::connect returns, and the events that the loop then handles, are arguments. socket() gives
-- a socket. The address that the load balancer selects goes unused in the code, and is left out.
pub mod CallMethod
pub mod FindAddr
pub mod Keeps
pub mod Once
pub mod Session
pub mod Answer
pub mod Outcome
pub mod Silent
pub mod Samples
mod FindAddrTests
mod Tests
use netrpc.Base.{
  ℕ, zero, suc, Bytes, codes, Bool, true, false, not, ◌||◌, Result, ok, err, fault, ◌>>=◌, ℤ, pos,
  pos_part, is_zero, Option, none, some, List, [], ◌∷◌, ◌++◌, if◌then◌else◌,
}
use netrpc.StdMap.{bytes_eq, find, erase, bytes_key}
use netrpc.Config.{RpcStub}
use netrpc.Decimal.{decimal_int}
use netrpc.MsgIdUtil.{MsgIdState, gen_msg_id}
use netrpc.NetAddr.{IpNetAddr, is_valid_text, parse_addr}
use netrpc.TinyPb.Protocol.{TinyPbProtocol, new_message}
use netrpc.Tcp.Connection.{TcpConnection, connected}
use netrpc.Tcp.Connection.Events.{stop_writing}
use netrpc.Tcp.Client.{write_message, read_message}
use netrpc.Tcp.Client.{TcpClient, ConnectResult, new_tcp_client, connect, end_connect}
use netrpc.Rpc.Controller.{RpcController, set_error, set_finished, set_msg_id, start_cancel}
use netrpc.Rpc.ErrorCode.{
  error_failed_serialize, error_rpc_call_timeout, error_rpc_channel_init, error_rpc_peer_addr,
}

pub record RpcChannel : Type 0 where
  pub peer_addr : Option IpNetAddr
  pub addrs : List (Option IpNetAddr)
  -- with it, m_controller is the caller's controller; without it, m_controller is null
  pub is_init : Bool
  pub has_closure : Bool
  pub controller : RpcController
  -- the payload that m_response was last parsed from
  pub response : Option Bytes
  pub client : Option TcpClient
  -- the request that the callbacks of the call hold
  pub req_protocol : TinyPbProtocol
  -- the interval of the timeout, while its event is in the timer
  pub timer_event : Option ℤ
  -- what the controller and the response were at each run of the closure
  pub runs : List (RpcController × Option Bytes)

unfoldable pub new_channel : Option IpNetAddr → RpcController → RpcChannel
new_channel peer_addr controller = record {
  peer_addr = peer_addr;
  addrs = peer_addr ∷ [];
  is_init = false;
  has_closure = false;
  controller = controller;
  response = none;
  client = none;
  req_protocol = new_message;
  timer_event = none;
  runs = [];
}

-- The constructor from a list of addresses leaves m_peer_addr null.
unfoldable pub new_channel_from : List (Option IpNetAddr) → RpcController → RpcChannel
new_channel_from addrs controller = record (new_channel none controller) { addrs = addrs }

abbrev pub map_addr : Option RpcStub → Option IpNetAddr
map_addr none = none
map_addr (some stub) = some stub.addr

-- The address of a text ip:port, or else of the stub of that name.
unfoldable pub find_addr : List (Bytes × RpcStub) → Bytes → Option IpNetAddr
find_addr rpc_stubs str =
    if is_valid_text str then some (parse_addr str) else map_addr (find str rpc_stubs)

-- Init, with a closure or with a null one.
unfoldable pub init : Bool → RpcChannel → RpcChannel
init done ch =
    let started = record ch { is_init = true; has_closure = done } in
    if ch.is_init then ch else started

abbrev pub update_controller : (RpcController → RpcController) → RpcChannel → RpcChannel
update_controller f ch = record ch { controller = f ch.controller }

abbrev pub put_client : TcpClient → RpcChannel → RpcChannel
put_client c ch = record ch { client = some c }

abbrev pub put_connection : TcpConnection → TcpClient → TcpClient
put_connection connection c = record c { connection = connection }

-- A write to the connection of m_client.
unfoldable pub update_connection : (TcpConnection → TcpConnection) → RpcChannel → Result RpcChannel
update_connection f ch = elim ch.client [
  | none ↦ err fault
  | some client ↦ ok (put_client (put_connection (f client.connection) client) ch)
]

unfoldable pub close_call : RpcChannel → RpcChannel
close_call ch = record ch {
  runs = ch.runs ++ ((ch.controller, ch.response) ∷ []);
  controller = set_finished true ch.controller;
}

unfoldable pub call_back : RpcChannel → Result RpcChannel
call_back ch =
    if not ch.is_init
    then err fault
    else if ch.controller.is_finished
    then ok ch
    else if ch.has_closure
    then ok (close_call ch)
    else ok ch

-- SetError and callBack, the way in which the code ends a call.
unfoldable pub fail_with : ℤ → Bytes → RpcChannel → Result RpcChannel
fail_with code info ch = call_back (update_controller (set_error code info) ch)

-- The task of the timer event.
unfoldable pub on_timeout : RpcChannel → Result RpcChannel
on_timeout ch =
    let info = codes "rpc call timeout " ++ decimal_int ch.controller.timeout in
    if ch.controller.is_finished
    then ok ch
    else fail_with error_rpc_call_timeout info (update_controller start_cancel ch)

-- `done` of connect; the callback of the write is the number 0.
unfoldable pub on_connect_done : RpcChannel → Result RpcChannel
on_connect_done ch = elim ch.client [
  | none ↦ err fault
  | some client ↦
      if is_zero client.connect_error_code
      then update_connection (write_message ch.req_protocol 0) ch
      else fail_with client.connect_error_code client.connect_error_info ch
]

-- The callback of the write; that of the read is the number 1.
unfoldable pub on_sent : TinyPbProtocol → RpcChannel → Result RpcChannel
on_sent req ch = update_connection (read_message req.msg_id 1) ch

-- The loop over m_write_dones.
unfoldable pub run_sent : List (TinyPbProtocol × ℕ) → RpcChannel → Result RpcChannel
run_sent [] ch = ok ch
run_sent ((message, _) ∷ dones) ch = do ch' ← on_sent message ch; run_sent dones ch'

pub data ChannelEvent : Type 0 where
  -- the socket of a connect is ready: what ::connect then returns, with the text of errno
  connect_ready : ConnectResult → Bytes → ChannelEvent
  -- onWrite comes to its callbacks, with is_write_all
  written : Bool → ChannelEvent
  -- excute takes a decoded message
  arrived : TinyPbProtocol → ChannelEvent
  -- the timer takes the event of the timeout
  timer_fired : ChannelEvent

unfoldable pub on_connect_ready : ConnectResult → Bytes → TcpClient → RpcChannel → Result RpcChannel
on_connect_ready result text client ch =
    if client.is_connecting
    then on_connect_done (put_client (end_connect result text client) ch)
    else ok ch

-- The callbacks of the write run, then their list is cleared.
unfoldable pub run_sent_dones : Bool → TcpClient → RpcChannel → Result RpcChannel
run_sent_dones is_write_all client ch = do
  stopped ← update_connection (stop_writing is_write_all) ch
  called ← run_sent client.connection.write_dones stopped
  update_connection (λ c. record c { write_dones = [] }) called

unfoldable pub on_written : Bool → TcpClient → RpcChannel → Result RpcChannel
on_written is_write_all client ch =
    if client.connection.listens_out then run_sent_dones is_write_all client ch else ok ch

-- The rest depends on whether m_response->ParseFromString takes a payload.
module _ (parse_response : Bytes → Bool) where
  -- The callback of the read.
  unfoldable pub on_response : TinyPbProtocol → RpcChannel → Result RpcChannel
  on_response m ch =
      let parsed = record ch { response = some m.pb_data } in
      if not (parse_response m.pb_data)
      then fail_with error_failed_serialize (codes "serialize error") parsed
      else if not (is_zero m.err_code)
      then fail_with m.err_code m.err_info parsed
      else call_back parsed

  -- One round of excute: the callback of a read runs for the first message with its id.
  unfoldable pub on_arrived : TinyPbProtocol → TcpClient → RpcChannel → Result RpcChannel
  on_arrived m client ch = elim (find m.msg_id client.connection.read_dones) [
    | none ↦ ok ch
    | some _ ↦ do
      ch' ← on_response m ch
      update_connection (λ c. record c { read_dones = erase m.msg_id c.read_dones }) ch'
  ]

  unfoldable pub on_client_event : ChannelEvent → TcpClient → RpcChannel → Result RpcChannel
  on_client_event (connect_ready result text) client ch = on_connect_ready result text client ch
  on_client_event (written is_write_all) client ch = on_written is_write_all client ch
  on_client_event (arrived m) client ch = on_arrived m client ch
  on_client_event timer_fired client ch = elim ch.timer_event [
    | none ↦ ok ch
    | some _ ↦ on_timeout (record ch { timer_event = none })
  ]

  unfoldable pub on_event : ChannelEvent → RpcChannel → Result RpcChannel
  on_event e ch = elim ch.client [ none ↦ ok ch | some client ↦ on_client_event e client ch ]

  unfoldable pub run_events : List ChannelEvent → RpcChannel → Result RpcChannel
  run_events [] ch = ok ch
  run_events (e ∷ es) ch = do ch' ← on_event e ch; run_events es ch'
