-- ===== src/Akonit.antt =====
-- src/vpn/adapters/akonit: the servers that a profile has, and the configuration of sing-box for one
-- of them.
pub mod Tags
pub mod Names
pub mod Provider
pub mod Catalog
