-- ===== src/Net.antt =====
-- The networking layer: src/cpprealm/internal/networking and src/cpprealm/networking.
pub mod Uri
pub mod Ipv4
pub mod Endpoint
pub mod Headers
pub mod Transport
pub mod Shim
