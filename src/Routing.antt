-- ===== src/Routing.antt =====
-- core/routing: ip rules, the routing table, the tunnel device, and the list of routes.
pub mod Rules
pub mod Tun
pub mod Table
pub mod Bypass
