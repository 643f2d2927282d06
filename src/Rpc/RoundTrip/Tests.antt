-- ===== src/Rpc/RoundTrip/Tests.antt =====
-- The call of Order.makeOrder, served by the service of the samples.
use netrpc.Base.{
  ◌-◌, ◌≡◌, refl, Bytes, codes, true, false, ok, Returns, some, List, [], ◌∷◌, ◌++◌, map, length,
  length-append, take-append_eq, arith,
}
use netrpc.TcpBuffer.{TcpBuffer}
use netrpc.TcpBuffer.Contents.{readable, IsOpen}
use netrpc.TinyPb.Protocol.{TinyPbProtocol}
use netrpc.TinyPb.Encoder.{total_len}
use netrpc.TinyPb.Decoder.{decode}
use netrpc.TinyPb.Frame.{IsSendable, received}
use netrpc.TinyPb.Samples.{IsSendable-of_sendable}
use netrpc.StdMap.{find, bytes_eq, bytes_key}
use netrpc.Tcp.Connection.{TcpConnection, connected, by_server, excute_server}
use netrpc.Tcp.Connection.Events.{fill_out, pending_bytes}
use netrpc.Tcp.Client.{TcpClient}
use netrpc.MsgIdUtil.{MsgIdState}
use netrpc.Rpc.ServiceName.{parse_service_full_name, find_first_of}
use netrpc.Rpc.Dispatcher.{RunTime}
use netrpc.Rpc.Dispatcher.Branches.{resolve}
use netrpc.Rpc.Controller.{set_msg_id}
use netrpc.Rpc.Samples.{orders_api, services, idle}
use netrpc.Rpc.Channel.{RpcChannel, written, arrived}
use netrpc.Rpc.Channel.CallMethod.{call_method, session}
use netrpc.Rpc.Channel.Samples.{channel, ids, call, channel-fresh, call-IsSent}
use netrpc.Rpc.Channel.Outcome.{request_of}
use netrpc.Rpc.RoundTrip.{response_to, Serves, Receives, session-excute_server}

-- A buffer that holds the bytes.
abbrev holding : Bytes → TcpBuffer
holding bytes = record {
  read_index = 0;
  write_index = length bytes;
  size = 0;
  buffer = bytes ++ (0 ∷ []);
}

holding-readable : (bytes : Bytes) → IsOpen (holding bytes) × (readable (holding bytes) ≡ bytes)
holding-readable bytes =
    let longer = length-append bytes (0 ∷ []) in
    (
      record {
        valid = record { ordered = omega arith; inside = omega (arith, longer) };
        slack = omega (arith, longer);
      },
      take-append_eq (length bytes - 0) bytes (0 ∷ []) (omega arith),
    )

abbrev request : TinyPbProtocol
request = request_of call (codes "99") (codes "price")

abbrev serving : Bytes → TcpConnection
serving bytes = record {
  in_buffer = holding bytes;
  out_buffer = holding [];
  state = connected;
  connection_type = by_server;
  listens_in = true;
  listens_out = false;
  write_dones = [];
  read_dones = [];
}

serving-Receives : (bytes : Bytes) → Receives orders_api services (serving bytes) bytes
serving-Receives bytes =
    let (open_, whole) = holding-readable bytes in
    let (empty_open, empty) = holding-readable [] in
    record { open_ = open_; whole = whole; out_valid = empty_open.valid; empty = empty }

request-IsSendable : IsSendable request
unfolding total_len
request-IsSendable = IsSendable-of_sendable request refl

response-IsSendable : IsSendable (response_to request (codes "price"))
unfolding total_len
response-IsSendable = IsSendable-of_sendable (response_to request (codes "price")) refl

request-Serves : Serves orders_api services (received request) (codes "price")
unfolding resolve parse_service_full_name find_first_of find bytes_eq
request-Serves = record {
  service = 0;
  method = 0;
  message = codes "price";
  name = codes "makeOrder";
  resolves = refl;
  answer = codes "price";
  answers = refl;
  serializes = refl;
}

session-excute_server_example :
    (ids' : MsgIdState) × (ch₁ : RpcChannel) × (client : TcpClient) × (filled : TcpConnection)
    × (out : Bytes) × (rt' : RunTime) × (server' : TcpConnection) × (messages : List TinyPbProtocol)
    × (rest : TcpBuffer) × (call_method (λ payload. true) call ids channel ≡ ok (ids', ch₁))
    × (ch₁.client ≡ some client)
    × (client.connection.state ≡ connected)
    × (fill_out (λ d m c. c) client.connection ≡ ok filled)
    × (pending_bytes filled.out_buffer ≡ ok out)
    × (excute_server orders_api services 3 idle (serving out) ≡ ok (rt', server'))
    × (decode 3 [] (holding (readable server'.out_buffer)) ≡ ok (messages, rest))
    × Returns
        (λ ch'. ch'.runs ≡ (set_msg_id (codes "99") channel.controller, some (codes "price")) ∷ [])
        (session (λ payload. true) call (written true ∷ map arrived messages) ids channel)
session-excute_server_example =
    session-excute_server orders_api services (λ payload. true) call ids 57 (57 ∷ []) channel
      (codes "price") call-IsSent true (λ d m c. c) serving idle 1 (codes "price") holding
      channel-fresh serving-Receives request-IsSendable request-Serves response-IsSendable refl
      holding-readable
