-- ===== src/Rpc.antt =====
-- netrpc/net/rpc: the dispatcher of the server, the channel of the client, and both in one call.
pub mod ErrorCode
pub mod ServiceName
pub mod Dispatcher
pub mod Controller
pub mod Channel
pub mod Samples
pub mod CallRpc
pub mod RoundTrip
mod Tests
