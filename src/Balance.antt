-- ===== src/Balance.antt =====
-- loadbalance: the filters and the pickers that a gRPC balancer calls for each request.
pub mod Types
pub mod Best
pub mod LeastActive
pub mod RoundRobin
pub mod Hash
pub mod Fastest
pub mod Random
pub mod WeightRandom
pub mod WeightRoundRobin
pub mod P2c
mod Tests
