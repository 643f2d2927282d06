-- ===== src/Rpc/RoundTrip/Upload.antt =====
-- The request of a call on its way out: what CallMethod leaves in the connection of the client, and
-- the bytes that onWrite makes of it.
use netrpc.Base.{ℕ, ◌≡◌, refl, ◌∙◌, ap, Bytes, ok, ◌>>=◌, [], ◌∷◌, ◌++◌, arith, length-zeros}
use netrpc.TcpBuffer.{create}
use netrpc.TcpBuffer.Contents.{readable, IsValid}
use netrpc.TinyPb.Protocol.{TinyPbProtocol}
use netrpc.TinyPb.RoundTrip.{wires, AllSendable, encode-wires}
use netrpc.Tcp.Connection.{
  TcpConnection, connected, open_connection, set_state, push_send_message, listen_write,
}
use netrpc.Tcp.Connection.Events.{with_messages, fill_out, pending_bytes}
use netrpc.Tcp.Connection.Resend.{pending_bytes_ok}
use netrpc.Tcp.Client.{new_tcp_client, set_connected, write_message}

-- The connection of a client that has connected and been given the request.
abbrev pub with_request : TinyPbProtocol → TcpConnection
with_request req = write_message req 0 (set_connected new_tcp_client).connection

create-empty : IsValid (create 128) × (readable (create 128) ≡ [])
unfolding create
create-empty = (record { ordered = omega arith; inside = omega (arith, length-zeros 128) }, refl)

-- onWrite is run on a connected client, whose out buffer it fills with the frame of the request, and
-- all of it is what it gives ::write.
pub fill_out-with_request :
    (req : TinyPbProtocol) (run_done : ℕ → TinyPbProtocol → TcpConnection → TcpConnection)
    → AllSendable (req ∷ [])
    → ((with_request req).state ≡ connected)
      × ((filled : TcpConnection) × (fill_out run_done (with_request req) ≡ ok filled)
          × (pending_bytes filled.out_buffer ≡ ok (wires (req ∷ []))))
unfolding fill_out write_message push_send_message listen_write set_connected set_state
    new_tcp_client open_connection
fill_out-with_request req run_done s =
    let (out, e, v, r) = encode-wires (req ∷ []) (create 128) create-empty.0 s in
    let c : TcpConnection = with_request req in
    (
      refl,
      (
        _,
        ap
            (λ r. r >>= (λ t.
              ok (record c { out_buffer = t.1; write_dones = with_messages t.0 c.write_dones })))
            e,
        pending_bytes_ok out v
            ∙ ap ok (r ∙ ap (λ (x : Bytes). x ++ wires (req ∷ [])) create-empty.1),
      ),
    )
