-- ===== src/Tcp/Connection/Resend.antt =====
-- onWrite of a server's connection in tcp_connection.cc: what goes out on the socket, over one
-- call and over two calls with a reply between them.
use netrpc.Base.{
  ℕ, ◌-◌, ◌≤◌, ◌≡◌, refl, ◌∙◌, ap, Bytes, ok, -ℤ_pos, slice_ok, arith, length, List, [], ◌∷◌, ◌++◌,
  true, false, le→leb,
}
use netrpc.TcpBuffer.{TcpBuffer, read_able}
use netrpc.TcpBuffer.Contents.{readable, IsValid}
use netrpc.TinyPb.Protocol.{TinyPbProtocol}
use netrpc.TinyPb.RoundTrip.{wires, AllSendable}
use netrpc.Tcp.Connection.{TcpConnection, connected, by_server, reply}
use netrpc.Tcp.Connection.Events.{
  WriteResult, accepts, write_loop, pending_bytes, stop_writing, fill_out, after_write,
  write_connected, on_write,
}
use netrpc.Tcp.Connection.Server.{reply-Sends}

pub pending_bytes_ok : (b : TcpBuffer) → IsValid b → pending_bytes b ≡ ok (readable b)
unfolding pending_bytes read_able
pending_bytes_ok b v = rw (-ℤ_pos b.write_index b.read_index v.ordered) (
    slice_ok b.buffer b.read_index (b.write_index - b.read_index)
      (omega (arith, v.inside, v.ordered)))

write_loop-accepts :
    (n : ℕ) (results : List WriteResult) (bytes : Bytes)
    → length bytes ≤ n
    → write_loop (accepts n ∷ results) bytes ≡ ok (bytes, true)
unfolding write_loop
write_loop-accepts n results [] h = refl
write_loop-accepts n results (x ∷ xs) h = rw (le→leb (length (x ∷ xs)) n h, write_loop)

module _ (run_done : ℕ → TinyPbProtocol → TcpConnection → TcpConnection) where
  fill_out-server : (c : TcpConnection) → c.connection_type ≡ by_server → fill_out run_done c ≡ ok c
  unfolding fill_out
  fill_out-server c ty = rw ty

  after_write-server :
      (fuel : ℕ) (c : TcpConnection)
      → c.connection_type ≡ by_server
      → after_write run_done fuel c ≡ ok c
  unfolding after_write
  after_write-server fuel c ty = rw ty

  on_write-connected :
      (fuel : ℕ) (results : List WriteResult) (c : TcpConnection)
      → c.state ≡ connected
      → on_write run_done fuel results c ≡ write_connected run_done fuel results c
  unfolding on_write
  on_write-connected fuel results c st = rw st

  write_connected-all :
      (fuel n : ℕ) (results : List WriteResult) (c : TcpConnection)
      → c.connection_type ≡ by_server
      → IsValid c.out_buffer
      → length (readable c.out_buffer) ≤ n
      → write_connected run_done fuel (accepts n ∷ results) c
        ≡ ok (readable c.out_buffer, record c { listens_out = false })
  unfolding write_connected stop_writing
  write_connected-all fuel n results c ty v h = rw (
    fill_out-server c ty,
    pending_bytes_ok c.out_buffer v,
    write_loop-accepts n results (readable c.out_buffer) h,
    after_write-server fuel (record c { listens_out = false }) ty,
  )

  on_write-all :
      (fuel n : ℕ) (results : List WriteResult) (c : TcpConnection)
      → c.state ≡ connected
      → c.connection_type ≡ by_server
      → IsValid c.out_buffer
      → length (readable c.out_buffer) ≤ n
      → on_write run_done fuel (accepts n ∷ results) c
        ≡ ok (readable c.out_buffer, record c { listens_out = false })
  on_write-all fuel n results c st ty v h =
      on_write-connected fuel (accepts n ∷ results) c st
      ∙ write_connected-all fuel n results c ty v h

  -- A connected server whose socket takes all that it is offered, twice, with a reply between the
  -- two calls of onWrite: the second call sends again everything that the first one sent, and the
  -- frames of the reply behind it.
  pub on_write-twice :
      (fuel n n' : ℕ) (results results' : List WriteResult) (ms : List TinyPbProtocol)
      (c : TcpConnection)
      → c.state ≡ connected
      → c.connection_type ≡ by_server
      → IsValid c.out_buffer
      → AllSendable ms
      → length (readable c.out_buffer) ≤ n
      → length (readable c.out_buffer ++ wires ms) ≤ n'
      → (c₁ c₂ c₃ : TcpConnection) × (on_write run_done fuel (accepts n ∷ results) c
          ≡ ok (readable c.out_buffer, c₁))
        × (reply ms c₁ ≡ ok c₂)
        × (on_write run_done fuel (accepts n' ∷ results') c₂
            ≡ ok (readable c.out_buffer ++ wires ms, c₃))
  on_write-twice fuel n n' results results' ms c st ty v s h h' =
      let c₁ : TcpConnection = record c { listens_out = false } in
      let (c₂, e, r, _) = reply-Sends ms c₁ v s in
      let again =
        on_write-all fuel n' results' c₂ (r.state_same ∙ st) (r.type_same ∙ ty) r.valid
          (rw r.sent h') in
      (
        c₁,
        c₂,
        record c₂ { listens_out = false },
        on_write-all fuel n results c st ty v h,
        e,
        again ∙ ap (λ x. ok (x, record c₂ { listens_out = false })) r.sent,
      )
