-- ===== src/Tcp/Server.antt =====
-- TcpServer of netrpc/net/tcp/tcp_server.cc: the connections that it keeps, each with the IO thread
-- that serves it, and init. A callback is a number.
pub mod Turns
pub mod Init
mod Tests
use netrpc.Base.{
  ℕ, suc, Bytes, Result, ok, err, fault, ◌>>=◌, ℤ, pos, negsuc, Bool, true, false, List, [], ◌∷◌,
  ◌++◌, take, drop,
}
use netrpc.FdEvent.{FdEvent, get_fd_event}
use netrpc.LoadBalance.{get_io_thread}
use netrpc.NetAddr.{IpNetAddr}
use netrpc.Tcp.Acceptor.{accept}
use netrpc.TinyPb.Protocol.{TinyPbProtocol}
use netrpc.Tcp.Connection.{
  TcpConnection, TcpState, connected, closed, by_server, open_connection, set_state,
  push_send_message, push_read_message, listen_write, listen_read,
}

pub record TcpServer : Type 0 where
  pub client_counts : ℕ
  -- m_client, a set of pointers, in the order of their addresses
  pub clients : List (ℕ × TcpConnection)
  -- m_index of the IOThreadGroup
  pub thread_index : ℤ
  -- the events of the process's FdEventGroup
  pub fd_group : List FdEvent

-- getFdEvent for an int: a negative one, as a size_t, is past any group, and no event is made for it.
unfoldable pub fd_event_of : ℤ → List FdEvent → Result (FdEvent × List FdEvent)
fd_event_of (pos fd) group = get_fd_event fd group
fd_event_of (negsuc n) group = err fault

-- m_client.insert of a new pointer, in front of which `place` of the others have their addresses.
unfoldable pub insert_client :
    ℕ → ℕ × TcpConnection → List (ℕ × TcpConnection) → List (ℕ × TcpConnection)
insert_client place client clients = take place clients ++ (client ∷ drop place clients)

-- On what ::accept returns; the connection takes the event of its file descriptor. `place` is what
-- the address that it is made at leads to.
unfoldable pub on_accept : List ℕ → ℕ → ℤ → IpNetAddr → TcpServer → Result TcpServer
on_accept threads place client_fd client_addr s = do
  let (fd, peer_addr) = accept client_fd client_addr
  (io_thread, index) ← get_io_thread threads s.thread_index
  (event, group) ← fd_event_of fd s.fd_group
  let connection = set_state connected (open_connection 128 by_server)
  ok (record {
    client_counts = suc s.client_counts;
    clients = insert_client place (io_thread, connection) s.clients;
    thread_index = index;
    fd_group = group;
  })

unfoldable pub is_closed : TcpState → Bool
is_closed closed = true
is_closed _ = false

-- The loop of ClearClientTimerFunc.
unfoldable pub keep_open : List (ℕ × TcpConnection) → List (ℕ × TcpConnection)
keep_open [] = []
keep_open ((thread, c) ∷ clients) = elim (is_closed c.state) [
  | true ↦ keep_open clients
  | false ↦ (thread, c) ∷ keep_open clients
]

unfoldable pub clear_client_timer_func : TcpServer → TcpServer
clear_client_timer_func s = record s { clients = keep_open s.clients }
