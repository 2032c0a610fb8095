-- ===== src/Limit.antt =====
-- ratelimit: the limiters that a server puts before its handlers.
pub mod Types
pub mod FixWindow
pub mod SlideWindow
pub mod TokenBucket
pub mod LeakyBucket
pub mod Redis
mod Tests
