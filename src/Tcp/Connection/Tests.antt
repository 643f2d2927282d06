-- ===== src/Tcp/Connection/Tests.antt =====
-- Concrete connections and runs for the theorems about TcpConnection.
use netrpc.Base.{
  codes, ok, true, false, List, [], ◌∷◌, ◌++◌, ◌≡◌, refl, arith, length, net_bytes, to_word,
}
use netrpc.StdMap.{bytes_eq, find}
use netrpc.TcpBuffer.{TcpBuffer}
use netrpc.TcpBuffer.Contents.{readable, IsValid, IsOpen}
use netrpc.TinyPb.Protocol.{TinyPbProtocol}
use netrpc.TinyPb.Encoder.{wire, with_msg_id, total_len}
use netrpc.TinyPb.RoundTrip.{wires, AllSendable}
use netrpc.TinyPb.Delivery.{delivered}
use netrpc.TinyPb.Samples.{order, AllSendable-of_all}
use netrpc.Rpc.ServiceName.{find_first_of, parse_service_full_name}
use netrpc.Rpc.Dispatcher.{dispatch, dispatch_to, run_closure, complete, set_tiny_pb_error}
use netrpc.Rpc.Samples.{orders_api, services, idle}
use netrpc.Tcp.Connection.{
  TcpConnection, connected, by_server, peer_closed, read_all, receive, reply, excute_server,
}
use netrpc.Tcp.Connection.Events.{accepts, on_write}
use netrpc.Tcp.Connection.Loss.{receive-remainder}
use netrpc.Tcp.Connection.Server.{responses, all_replies, last_run_time, excute_server-Sends}
use netrpc.Tcp.Connection.Resend.{on_write-twice}

abbrev small : TcpBuffer
small = record { read_index = 0; write_index = 1; size = 4; buffer = codes "nabc" }

small-IsValid : IsValid small
small-IsValid = record { ordered = omega arith; inside = omega arith }

small-IsOpen : IsOpen small
small-IsOpen = record { valid = small-IsValid; slack = omega arith }

receive-remainder_example :
    (b' : TcpBuffer) × (receive 10 small (codes "etrpc") peer_closed ≡ ok (b', read_all))
    × IsOpen b'
    × (readable b' ≡ codes "npc")
receive-remainder_example =
    receive-remainder 10 small (codes "etrpc") peer_closed small-IsOpen (λ e. cc) (omega arith)

-- A server's connection whose peer has sent one request, and which has some bytes to send.
abbrev requests : List TinyPbProtocol
requests = order ∷ []

abbrev asked : TcpBuffer
asked = record {
  read_index = 0;
  write_index = length (wires requests);
  size = 0;
  buffer = wires requests ++ (0 ∷ []);
}

asked-IsOpen : IsOpen asked
unfolding wire with_msg_id net_bytes to_word total_len
asked-IsOpen = record {
  valid = record { ordered = omega arith; inside = omega arith };
  slack = omega arith;
}

abbrev serving : TcpConnection
serving = record {
  in_buffer = asked;
  out_buffer = small;
  state = connected;
  connection_type = by_server;
  listens_in = true;
  listens_out = false;
  write_dones = [];
  read_dones = [];
}

requests-AllSendable : AllSendable requests
unfolding total_len with_msg_id
requests-AllSendable = AllSendable-of_all requests refl

replies-AllSendable : AllSendable (all_replies orders_api services (delivered requests) idle)
unfolding total_len with_msg_id dispatch dispatch_to run_closure complete set_tiny_pb_error find
    bytes_eq parse_service_full_name find_first_of
replies-AllSendable =
    AllSendable-of_all (all_replies orders_api services (delivered requests) idle) refl

responses-AllSendable : AllSendable (responses orders_api services (delivered requests) idle)
unfolding total_len with_msg_id dispatch dispatch_to run_closure complete set_tiny_pb_error find
    bytes_eq parse_service_full_name find_first_of
responses-AllSendable =
    AllSendable-of_all (responses orders_api services (delivered requests) idle) refl

excute_server-Sends_example :
    (c' : TcpConnection) × (excute_server orders_api services 2 idle serving
      ≡ ok (last_run_time orders_api services (delivered requests) idle, c'))
    × IsValid c'.out_buffer
    × (readable c'.out_buffer
        ≡ readable serving.out_buffer
          ++ (wires (all_replies orders_api services (delivered requests) idle)
              ++ wires (responses orders_api services (delivered requests) idle)))
    × (readable c'.in_buffer ≡ [])
unfolding wire with_msg_id net_bytes to_word total_len
excute_server-Sends_example =
    excute_server-Sends orders_api services requests 2 idle serving asked-IsOpen small-IsValid
      requests-AllSendable (omega arith) refl replies-AllSendable responses-AllSendable

on_write-twice_example :
    (c₁ c₂ c₃ : TcpConnection) × (on_write (λ done m c. c) 1 (accepts 9 ∷ []) serving
      ≡ ok (codes "n", c₁))
    × (reply requests c₁ ≡ ok c₂)
    × (on_write (λ done m c. c) 1 (accepts 99 ∷ []) c₂ ≡ ok (codes "n" ++ wires requests, c₃))
unfolding wire with_msg_id net_bytes to_word total_len
on_write-twice_example =
    on_write-twice (λ done m c. c) 1 9 99 [] [] requests serving refl refl small-IsValid
      requests-AllSendable (omega arith) (omega arith)
