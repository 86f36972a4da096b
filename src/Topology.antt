-- ===== src/Topology.antt =====
-- core/topology: the gateway, name resolution, and the addresses of the servers.
pub mod Discovery
pub mod Patterns
pub mod Resolver
