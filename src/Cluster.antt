-- ===== src/Cluster.antt =====
-- cluster: interceptors of a client that send one request to every instance of a service.
pub mod Broadcast
pub mod Responses
pub mod Channel
pub mod Interceptor
mod Tests
