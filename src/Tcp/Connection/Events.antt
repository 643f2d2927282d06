-- ===== src/Tcp/Connection/Events.antt =====
-- The two handlers of a connection's FdEvent, onRead and onWrite of tcp_connection.cc. What the
-- socket does is an argument: the bytes that have arrived, and what each ::write accepts.
use netrpc.Base.{
  ℕ, zero, suc, ◌+◌, Bytes, Bool, true, false, Result, ok, err, out_of_fuel, ◌>>=◌, to_size, slice,
  get_elem?, none, some, List, [], ◌∷◌, ◌++◌, take, length, leb, map,
}
use netrpc.TcpBuffer.{TcpBuffer, read_able}
use netrpc.TinyPb.Protocol.{TinyPbProtocol}
use netrpc.TinyPb.Encoder.{encode}
use netrpc.Rpc.Dispatcher.{Protobuf, ServiceMap, RunTime}
use netrpc.Tcp.Connection.{
  TcpConnection, connected, by_server, by_client, ReadEnd, read_all, closing, receive, clear,
  excute_server, excute_client,
}

-- The result of one ::write: the bytes that the socket takes at most, EAGAIN, or another errno.
pub data WriteResult : Type 0 where
  accepts : ℕ → WriteResult
  again error : WriteResult

-- The loop of onWrite over what each ::write says: the bytes that go out, and is_write_all. The
-- buffer does not change in it, so each round offers the same bytes.
unfoldable pub write_loop : List WriteResult → Bytes → Result (Bytes × Bool)
write_loop results [] = ok ([], true)
write_loop [] (x ∷ xs) = err out_of_fuel
write_loop (accepts n ∷ results) (x ∷ xs) = elim (leb (length (x ∷ xs)) n) [
  | true ↦ ok (x ∷ xs, true)
  | false ↦ do (sent, all) ← write_loop results (x ∷ xs); ok (take n (x ∷ xs) ++ sent, all)
]
write_loop (again ∷ results) (x ∷ xs) = ok ([], false)
write_loop (error ∷ results) (x ∷ xs) = write_loop results (x ∷ xs)

-- The bytes of the out buffer that ::write is given.
unfoldable pub pending_bytes : TcpBuffer → Result Bytes
pending_bytes b = do write_size ← to_size (read_able b); slice b.buffer b.read_index write_size

-- The messages of m_write_dones are the ones that encode changes.
unfoldable pub with_messages :
    List TinyPbProtocol → List (TinyPbProtocol × ℕ) → List (TinyPbProtocol × ℕ)
with_messages (m ∷ ms) ((_, done) ∷ ws) = (m, done) ∷ with_messages ms ws
with_messages [] ws = ws
with_messages (m ∷ ms) [] = []

-- With everything written the connection stops listening for room to write.
unfoldable pub stop_writing : Bool → TcpConnection → TcpConnection
stop_writing true c = record c { listens_out = false }
stop_writing false c = c

module _ (run_done : ℕ → TinyPbProtocol → TcpConnection → TcpConnection) where
  -- The loop over m_write_dones, whose length is read anew in each round; `clear` behind it.
  unfoldable pub run_write_dones : ℕ → ℕ → TcpConnection → Result TcpConnection
  run_write_dones zero i c = err out_of_fuel
  run_write_dones (suc fuel) i c = elim (get_elem? c.write_dones i) [
    | none ↦ ok (record c { write_dones = [] })
    | some (message, done) ↦ run_write_dones fuel (i + 1) (run_done done message c)
  ]

  -- A client encodes what it has to send; a server has done so before.
  unfoldable pub fill_out : TcpConnection → Result TcpConnection
  fill_out c = elim c.connection_type [
    | by_server ↦ ok c
    | by_client ↦ do
      (messages, out) ← encode (map (λ w. w.0) c.write_dones) c.out_buffer
      ok (record c { out_buffer = out; write_dones = with_messages messages c.write_dones })
  ]

  unfoldable pub after_write : ℕ → TcpConnection → Result TcpConnection
  after_write fuel c = elim c.connection_type [
    | by_server ↦ ok c
    | by_client ↦ run_write_dones fuel 0 c
  ]

  unfoldable pub write_connected :
      ℕ → List WriteResult → TcpConnection → Result (Bytes × TcpConnection)
  write_connected fuel results c = do
    c₁ ← fill_out c
    bytes ← pending_bytes c₁.out_buffer
    (sent, is_write_all) ← write_loop results bytes
    c₃ ← after_write fuel (stop_writing is_write_all c₁)
    ok (sent, c₃)

  unfoldable pub on_write : ℕ → List WriteResult → TcpConnection → Result (Bytes × TcpConnection)
  on_write fuel results c = elim c.state [
    | connected ↦ write_connected fuel results c
    | _ ↦ ok ([], c)
  ]

  module _ (p : Protobuf) (services : ServiceMap p) where
    unfoldable pub excute : ℕ → RunTime → TcpConnection → Result (RunTime × TcpConnection)
    excute fuel run_time c = elim c.connection_type [
      | by_server ↦ excute_server p services fuel run_time c
      | by_client ↦ do c' ← excute_client run_done fuel c; ok (run_time, c')
    ]

    unfoldable pub read_connected :
        ℕ → Bytes → ReadEnd → RunTime → TcpConnection → Result (RunTime × TcpConnection)
    read_connected fuel arrived end run_time c = do
      (in_buffer, stop) ← receive fuel c.in_buffer arrived end
      let filled = record c { in_buffer = in_buffer }
      elim stop [ closing ↦ ok (run_time, clear filled) | read_all ↦ excute fuel run_time filled ]

    unfoldable pub on_read :
        ℕ → Bytes → ReadEnd → RunTime → TcpConnection → Result (RunTime × TcpConnection)
    on_read fuel arrived end run_time c = elim c.state [
      | connected ↦ read_connected fuel arrived end run_time c
      | _ ↦ ok (run_time, c)
    ]
