-- ===== src/Discovery.antt =====
-- registry and resolver.go: the instances of services, in etcd and as the addresses of a connection.
pub mod Etcd
pub mod Subscribe
pub mod Resolver
pub mod Addresses
pub mod Rotation
pub mod Listing
pub mod Updates
pub mod Service
pub mod Lifecycle
pub mod Dial
mod Tests
