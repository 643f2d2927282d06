-- ===== src/Rpc/Channel/CallMethod.antt =====
-- RpcChannel::CallMethod of netrpc/net/rpc/rpc_channel.cc, up to the end of the retries.
use netrpc.Base.{
  ℕ, zero, suc, ◌+◌, Bytes, codes, Bool, true, false, not, ◌||◌, Result, ok, err, fault, ◌>>=◌,
  pos_part, Option, none, some, List, [], if◌then◌else◌,
}
use netrpc.StdMap.{bytes_eq}
use netrpc.MsgIdUtil.{MsgIdState, gen_msg_id}
use netrpc.TinyPb.Protocol.{TinyPbProtocol, new_message}
use netrpc.Tcp.Connection.{TcpState, not_connected, connected, half_closing, closed}
use netrpc.Tcp.Client.{TcpClient, ConnectResult, new_tcp_client, connect}
use netrpc.Rpc.Controller.{set_msg_id}
use netrpc.Rpc.ErrorCode.{error_failed_serialize, error_rpc_channel_init, error_rpc_peer_addr}
use netrpc.Rpc.Channel.{
  RpcChannel, ChannelEvent, put_client, update_controller, fail_with, on_connect_done, run_events,
}

-- One call of TcpClient::connect: what ::connect returns, and, where the loop was not running yet,
-- the events that it handles before connect returns.
pub record Attempt : Type 0 where
  pub result : ConnectResult
  pub handled : List ChannelEvent

-- The arguments of a call and what it asks of its surroundings. A pointer is whether it is there.
pub record Call : Type 0 where
  pub has_controller : Bool
  pub has_request : Bool
  pub has_response : Bool
  pub full_name : Bytes
  -- what SerializePartialToString writes, or its failure
  pub serialized : Option Bytes
  -- RunTime's m_msgid
  pub run_time_msg_id : Bytes
  -- the read of /dev/urandom
  pub random : Option Bytes
  -- the attempts to connect, from the first
  pub attempts : ℕ → Attempt

-- The id of the request: the controller's, that of the request being served, or a new one.
unfoldable pub take_msg_id : Call → RpcChannel → MsgIdState → Result (Bytes × MsgIdState)
take_msg_id call ch ids =
    if not (bytes_eq ch.controller.msg_id [])
    then ok (ch.controller.msg_id, ids)
    else if not (bytes_eq call.run_time_msg_id [])
    then ok (call.run_time_msg_id, ids)
    else gen_msg_id call.random ids

unfoldable pub is_connected : TcpState → Bool
is_connected connected = true
is_connected not_connected = false
is_connected half_closing = false
is_connected closed = false

module _ (parse_response : Bytes → Bool) where
  unfoldable pub attempt_connect : Attempt → TcpClient → RpcChannel → Result RpcChannel
  attempt_connect a client ch =
      let (client', is_done) = connect a.result client in
      let connecting = put_client client' ch in
      if is_done then on_connect_done connecting else run_events parse_response a.handled connecting

  -- The loop of the retries: how many are left, and the number of the attempt.
  unfoldable pub try_connect : ℕ → ℕ → (ℕ → Attempt) → RpcChannel → Result RpcChannel
  try_connect zero i attempts ch = ok ch
  try_connect (suc n) i attempts ch = elim ch.client [
    | none ↦ err fault
    | some client ↦ elim (is_connected client.connection.state) [
      | true ↦ ok ch
      | false ↦ do ch' ← attempt_connect (attempts i) client ch; try_connect n (i + 1) attempts ch'
    ]
  ]

  -- From the new client on.
  unfoldable pub send_request : Call → TinyPbProtocol → RpcChannel → Result RpcChannel
  send_request call req ch =
      let started = record ch {
        client = some new_tcp_client;
        req_protocol = req;
        timer_event = some ch.controller.timeout;
      } in
      try_connect (pos_part ch.controller.max_retry) 0 call.attempts started

  -- With the id of the request.
  unfoldable pub call_with_id : Call → Bytes → RpcChannel → Result RpcChannel
  call_with_id call id ch =
      let named = record new_message { msg_id = id; method_name = call.full_name } in
      if not ch.is_init
      then fail_with error_rpc_channel_init (codes "RpcChannel not call init()") ch
      else elim call.serialized [
        | none ↦ fail_with error_failed_serialize (codes "failed to serialize") ch
        | some bytes ↦ send_request call (record named { pb_data = bytes }) ch
      ]

  unfoldable pub call_addressed : Call → MsgIdState → RpcChannel → Result (MsgIdState × RpcChannel)
  call_addressed call ids ch = do
    (id, ids') ← take_msg_id call ch ids
    ch' ← call_with_id call id (update_controller (set_msg_id id) ch)
    ok (ids', ch')

  -- An error before the id is known.
  unfoldable pub refuse_call : Result RpcChannel → MsgIdState → Result (MsgIdState × RpcChannel)
  refuse_call result ids = do ch ← result; ok (ids, ch)

  -- SetError on a controller that is null is a fault.
  unfoldable pub call_method : Call → MsgIdState → RpcChannel → Result (MsgIdState × RpcChannel)
  call_method call ids ch =
      if not call.has_controller
      then err fault
      else if not call.has_request || not call.has_response
      then refuse_call
          (fail_with error_rpc_channel_init (codes "controller or request or response NULL") ch) ids
      else elim ch.peer_addr [
        | none ↦ refuse_call (fail_with error_rpc_peer_addr (codes "peer addr nullptr") ch) ids
        | some _ ↦ call_addressed call ids ch
      ]

  -- A call and the events behind it.
  unfoldable pub session : Call → List ChannelEvent → MsgIdState → RpcChannel → Result RpcChannel
  session call events ids ch = do
    (_, ch') ← call_method call ids ch
    run_events parse_response events ch'
