-- ===== src/Tcp/Acceptor.antt =====
-- TcpAcceptor of netrpc/net/tcp/tcp_acceptor.{h,cc}. What the calls of the socket library return is an
-- argument; an IPNetAddr is of the family AF_INET.
use netrpc.Base.{ℕ, Bytes, Bool, not, Result, ok, err, exited, ℤ, pos, negsuc, if◌then◌else◌}
use netrpc.NetAddr.{IpNetAddr, check_valid}

pub record TcpAcceptor : Type 0 where
  pub local_addr : IpNetAddr
  pub listen_fd : ℕ

-- What ::socket returns, and whether ::bind and ::listen return 0. (Where setsockopt fails the code
-- goes on.)
pub record SocketResults : Type 0 where
  pub socket : ℤ
  pub is_bound : Bool
  pub listens : Bool

-- The constructor behind ::socket.
unfoldable pub listen_on : SocketResults → IpNetAddr → ℤ → Result TcpAcceptor
listen_on results local_addr (negsuc n) = err exited
listen_on results local_addr (pos fd) =
    if not results.is_bound
    then err exited
    else if not results.listens
    then err exited
    else ok (record { local_addr = local_addr; listen_fd = fd })

unfoldable pub new_tcp_acceptor : (Bytes → ℕ) → SocketResults → IpNetAddr → Result TcpAcceptor
new_tcp_acceptor inet_addr results local_addr =
    if not (check_valid inet_addr local_addr)
    then err exited
    else listen_on results local_addr results.socket

-- accept, on what ::accept returns and the address that it fills in: a failed call is only logged.
unfoldable pub accept : ℤ → IpNetAddr → ℤ × IpNetAddr
accept client_fd client_addr = (client_fd, client_addr)
