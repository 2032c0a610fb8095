-- ===== src/Observability.antt =====
-- observability: the interceptors that measure and trace the calls of gRPC.
pub mod Methods
pub mod Metrics
pub mod Tracing
mod Tests
