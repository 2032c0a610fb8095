-- ===== src/Message.antt =====
-- rpc/message: the wire format of requests and responses.
pub mod Wire
pub mod Request
pub mod Response
mod Tests
