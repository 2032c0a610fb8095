-- ===== src/Internal.antt =====
-- internal: small helpers, some of which the load balancers share.
pub mod Codes
pub mod Xsync
pub mod RandString
pub mod Entropy
pub mod Xtime
mod Tests
