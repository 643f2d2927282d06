-- ===== src/Tcp.antt =====
-- netrpc/net/tcp: connections.
pub mod Connection
pub mod Acceptor
pub mod Server
pub mod Client
