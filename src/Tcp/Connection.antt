-- ===== src/Tcp/Connection.antt =====
-- TcpConnection of netrpc/net/tcp/tcp_connection.{h,cc}: the two buffers, the state, and the
-- callbacks of a client. What ::read and ::write of the socket return is an argument. The epoll
-- interest of the connection's FdEvent is two flags.
pub mod Events
pub mod Receive
pub mod Loss
pub mod Server
pub mod Resend
mod Tests
use netrpc.Base.{
  ℕ, zero, suc, ◌*◌, Bytes, Bool, true, false, Result, ok, err, out_of_fuel, ◌>>=◌, ℤ, pos, Option,
  to_size, none, some, List, [], ◌∷◌, ◌++◌, take, drop, length, ◌==◌, if◌then◌else◌,
}
use netrpc.StdMap.{find, erase, insert, bytes_key}
use netrpc.TcpBuffer.{
  TcpBuffer, create, write_able, read_able, resize_buffer, move_write_index, read_from_buffer,
  copy_into,
}
use netrpc.TinyPb.Protocol.{TinyPbProtocol, new_message}
use netrpc.TinyPb.Encoder.{encode}
use netrpc.TinyPb.Decoder.{decode}
use netrpc.Rpc.Dispatcher.{Protobuf, ServiceMap, RunTime, dispatch}

pub data TcpState : Type 0 where
  not_connected connected half_closing closed : TcpState

pub data TcpConnectionType : Type 0 where
  by_server by_client : TcpConnectionType

-- A callback is a number; what it does is an argument of the operations that run it.
pub record TcpConnection : Type 0 where
  pub in_buffer : TcpBuffer
  pub out_buffer : TcpBuffer
  pub state : TcpState
  pub connection_type : TcpConnectionType
  pub listens_in : Bool
  pub listens_out : Bool
  pub write_dones : List (TinyPbProtocol × ℕ)
  pub read_dones : List (Bytes × ℕ)

unfoldable pub listen_write : TcpConnection → TcpConnection
listen_write c = record c { listens_out = true }

unfoldable pub listen_read : TcpConnection → TcpConnection
listen_read c = record c { listens_in = true }

-- The constructor: a connection of the server listens from the start.
unfoldable pub open_connection : ℕ → TcpConnectionType → TcpConnection
open_connection buffer_size type = record {
  in_buffer = create buffer_size;
  out_buffer = create buffer_size;
  state = not_connected;
  connection_type = type;
  listens_in = elim type [ by_server ↦ true | by_client ↦ false ];
  listens_out = false;
  write_dones = [];
  read_dones = [];
}

-- setState, whose argument the code does not use.
unfoldable pub set_state : TcpState → TcpConnection → TcpConnection
set_state _ c = record c { state = connected }

unfoldable pub clear : TcpConnection → TcpConnection
clear c =
    let cleared = record c { state = closed; listens_in = false; listens_out = false } in
    elim c.state [ closed ↦ c | _ ↦ cleared ]

-- The result says whether ::shutdown is called on the socket.
unfoldable pub shutdown : TcpConnection → TcpConnection × Bool
shutdown c = elim c.state [
  | not_connected ↦ (c, false)
  | closed ↦ (c, false)
  | _ ↦ (record c { state = half_closing }, true)
]

unfoldable pub push_send_message : TinyPbProtocol → ℕ → TcpConnection → TcpConnection
push_send_message message done c = record c {
  write_dones = c.write_dones ++ ((message, done) ∷ []);
}

unfoldable pub push_read_message : Bytes → ℕ → TcpConnection → TcpConnection
push_read_message msg_id done c = record c { read_dones = insert msg_id done c.read_dones }

unfoldable pub reply : List TinyPbProtocol → TcpConnection → Result TcpConnection
reply messages c = do
  (_, out) ← encode messages c.out_buffer
  ok (listen_write (record c { out_buffer = out }))

-- What ::read says when the bytes that have arrived are used up.
pub data ReadEnd : Type 0 where
  would_block peer_closed failed : ReadEnd

-- The result of one ::read: bytes, 0, -1 with EAGAIN, or -1 with another errno.
pub data ReadResult : Type 0 where
  got : Bytes → ReadResult
  eof again error : ReadResult

-- ::read of `count` bytes from a socket at which `arrived` waits.
unfoldable pub socket_read : ℕ → Bytes → ReadEnd → ReadResult
socket_read zero arrived end = eof
socket_read (suc n) [] would_block = again
socket_read (suc n) [] peer_closed = eof
socket_read (suc n) [] failed = error
socket_read (suc n) (x ∷ xs) end = got (x ∷ take n xs)

-- How the loop of onRead stops.
pub data ReadStop : Type 0 where
  read_all closing : ReadStop

-- A full buffer is doubled before the read.
unfoldable pub room_to_read : TcpBuffer → Result TcpBuffer
room_to_read b = elim (write_able b) [ pos zero ↦ resize_buffer b (2 * length b.buffer) | _ ↦ ok b ]

-- ::read writes behind the write index, and moveWriteIndex is told of it.
unfoldable pub take_in : TcpBuffer → Bytes → Result TcpBuffer
take_in b bytes = do
  stored ← copy_into b.buffer b.write_index bytes
  move_write_index (record b { buffer = stored }) (pos (length bytes))

-- The loop of onRead, on fuel, for the bytes that have arrived and what ::read says behind them.
-- A full read goes round again; so does an error other than EAGAIN.
unfoldable pub receive : ℕ → TcpBuffer → Bytes → ReadEnd → Result (TcpBuffer × ReadStop)
receive zero b arrived end = err out_of_fuel
receive (suc fuel) b arrived end = do
  room ← room_to_read b
  read_count ← to_size (write_able room)
  elim (socket_read read_count arrived end) [
    | got bytes ↦ do
      b' ← take_in room bytes
      elim (length bytes == read_count) [
        | true ↦ receive fuel b' (drop read_count arrived) end
        | false ↦ ok (b', read_all)
      ]
    | eof ↦ ok (room, closing)
    | again ↦ ok (room, read_all)
    | error ↦ receive fuel room arrived end
  ]

-- The rest depends on the services of the process, and on what the callbacks of a client do.
module _ (p : Protobuf) (services : ServiceMap p) where
  -- One reply for each run of the closure, in order.
  unfoldable pub reply_each : List TinyPbProtocol → TcpConnection → Result TcpConnection
  reply_each [] c = ok c
  reply_each (m ∷ ms) c = do c' ← reply (m ∷ []) c; reply_each ms c'

  -- The loop of excute on the server's side: the responses that it collects.
  unfoldable pub serve_requests :
      List TinyPbProtocol
      → RunTime
      → TcpConnection
      → Result (List TinyPbProtocol × RunTime × TcpConnection)
  serve_requests [] run_time c = ok ([], run_time, c)
  serve_requests (request ∷ requests) run_time c = do
    let d = dispatch p services request new_message run_time
    c₁ ← reply_each d.replies c
    (responses, run_time', c₂) ← serve_requests requests d.run_time c₁
    ok (d.response ∷ responses, run_time', c₂)

  unfoldable pub excute_server : ℕ → RunTime → TcpConnection → Result (RunTime × TcpConnection)
  excute_server fuel run_time c = do
    (result, in_buffer) ← decode fuel [] c.in_buffer
    (replay_messages, run_time', c₁) ←
        serve_requests result run_time (record c { in_buffer = in_buffer })
    c₂ ← reply replay_messages c₁
    ok (run_time', c₂)

module _ (run_done : ℕ → TinyPbProtocol → TcpConnection → TcpConnection) where
  unfoldable pub run_read_done : TinyPbProtocol → Option ℕ → TcpConnection → TcpConnection
  run_read_done m none c = c
  run_read_done m (some done) c =
      let called = run_done done m c in
      record called { read_dones = erase m.msg_id called.read_dones }

  -- The loop of excute on the client's side: a callback runs for the first message with its id.
  unfoldable pub take_responses : List TinyPbProtocol → TcpConnection → TcpConnection
  take_responses [] c = c
  take_responses (m ∷ ms) c = take_responses ms (run_read_done m (find m.msg_id c.read_dones) c)

  unfoldable pub excute_client : ℕ → TcpConnection → Result TcpConnection
  excute_client fuel c = do
    (result, in_buffer) ← decode fuel [] c.in_buffer
    ok (take_responses result (record c { in_buffer = in_buffer }))
