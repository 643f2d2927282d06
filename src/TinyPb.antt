-- ===== src/TinyPb.antt =====
-- netrpc/net/coder: the TinyPB protocol, its encoder and its decoder.
pub mod Protocol
pub mod Encoder
pub mod Decoder
pub mod Cursor
pub mod Frame
pub mod Parse
pub mod RoundTrip
pub mod Delivery
pub mod Stall
pub mod Samples
mod Tests
