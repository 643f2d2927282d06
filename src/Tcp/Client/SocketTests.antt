-- ===== src/Tcp/Client/SocketTests.antt =====
-- A client on the descriptor 7 whose connect is in progress and then refused, and that connects
-- again on the descriptor 8.
use netrpc.Base.{◌≡◌, ◌++◌, codes, pos, none, some}
use netrpc.NetAddr.{IpNetAddr}
use netrpc.NetAddr.SockAddr.{SockaddrIn}
use netrpc.Tcp.Client.{in_progress, refused, success}
use netrpc.Tcp.Client.Socket.{
  ClientSocket, open_socket, close_client, connect_socket, end_connect_socket, connects, ends,
  SocketSteps, here, next, left_open, close_client-SocketSteps,
}

abbrev local : SockaddrIn → IpNetAddr
local addr = record { ip = codes "10.0.0.7"; port = addr.sin_port }

abbrev refused_once : ClientSocket
refused_once =
    end_connect_socket local (refused (codes "refused")) none (pos 8)
      (connect_socket local in_progress none (open_socket (pos 7)))

abbrev connected_then : ClientSocket
connected_then =
    connect_socket local success (some (record { sin_family = 2; sin_addr = 1; sin_port = 9 }))
      refused_once

connected_then-SocketSteps : SocketSteps local (open_socket (pos 7)) connected_then
connected_then-SocketSteps =
    next
      (next (next here (connects in_progress none)) (ends (refused (codes "refused")) none (pos 8)))
      (connects success (some (record { sin_family = 2; sin_addr = 1; sin_port = 9 })))

close_client-SocketSteps_example :
    ((close_client connected_then).opened ≡ connected_then.opened)
    × ((close_client connected_then).closed ++ left_open connected_then.fd ≡ connected_then.opened)
close_client-SocketSteps_example =
    close_client-SocketSteps local (pos 7) connected_then connected_then-SocketSteps
