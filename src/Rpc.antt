-- ===== src/Rpc.antt =====
-- rpc: the RPC server and client over the wire format of rpc/message.
pub mod Codec
pub mod Stub
pub mod Server
pub mod Client
pub mod Transfer
pub mod Race
pub mod Fields
pub mod Gzip
pub mod Accept
mod Tests
