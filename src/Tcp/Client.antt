-- ===== src/Tcp/Client.antt =====
-- TcpClient of netrpc/net/tcp/tcp_client.cc: connect with the callback that it listens with, and
-- the two operations that pass a message on; Socket has the socket. What
-- ::connect returns, with the text of its errno, is an argument; `done` runs where the result says.
pub mod Socket
mod SocketTests
use netrpc.Base.{ℕ, Bytes, codes, ℤ, pos, [], Bool, true, false, ◌++◌}
use netrpc.TinyPb.Protocol.{TinyPbProtocol}
use netrpc.Rpc.ErrorCode.{error_peer_closed, error_failed_connect}
use netrpc.Tcp.Connection.{
  TcpConnection, connected, by_client, open_connection, set_state, push_send_message,
  push_read_message, listen_write, listen_read,
}

pub record TcpClient : Type 0 where
  pub connection : TcpConnection
  pub connect_error_code : ℤ
  pub connect_error_info : Bytes
  -- the event of the socket listens for the end of a connect
  pub is_connecting : Bool

-- The constructor, on a socket that it was given.
unfoldable pub new_tcp_client : TcpClient
new_tcp_client = record {
  connection = open_connection 128 by_client;
  connect_error_code = pos 0;
  connect_error_info = [];
  is_connecting = false;
}

-- 0 (or EISCONN the second time), EINPROGRESS, ECONNREFUSED, another errno.
pub data ConnectResult : Type 0 where
  success in_progress : ConnectResult
  refused failed : Bytes → ConnectResult

unfoldable pub set_connect_error : ℤ → Bytes → TcpClient → TcpClient
set_connect_error code info c = record c { connect_error_code = code; connect_error_info = info }

unfoldable pub set_connected : TcpClient → TcpClient
set_connected c = record c { connection = set_state connected c.connection }

-- The result says whether `done` runs before connect returns.
unfoldable pub connect : ConnectResult → TcpClient → TcpClient × Bool
connect success c = (set_connected c, true)
connect in_progress c = (record c { is_connecting = true }, false)
connect (refused text) c =
    (set_connect_error error_failed_connect (codes "connect error, sys error = " ++ text) c, true)
connect (failed text) c =
    (set_connect_error error_failed_connect (codes "connect error, sys error = " ++ text) c, true)

-- The callback: any result but success is an error, of a second EINPROGRESS too. `done` runs
-- always.
unfoldable pub end_connect : ConnectResult → Bytes → TcpClient → TcpClient
end_connect result text c =
    let ended = record c { is_connecting = false } in
    elim result [
      | success ↦ set_connected ended
      | refused info ↦
          set_connect_error error_peer_closed (codes "connect refused, sys error = " ++ info) ended
      | failed info ↦
          set_connect_error error_failed_connect
            (codes "connect unkonwn error, sys error =" ++ info) ended
      | in_progress ↦
          set_connect_error error_failed_connect
            (codes "connect unkonwn error, sys error =" ++ text) ended
    ]

-- TcpClient::writeMessage and readMessage, on the client's connection.
unfoldable pub write_message : TinyPbProtocol → ℕ → TcpConnection → TcpConnection
write_message message done c = listen_write (push_send_message message done c)

unfoldable pub read_message : Bytes → ℕ → TcpConnection → TcpConnection
read_message msg_id done c = listen_read (push_read_message msg_id done c)
