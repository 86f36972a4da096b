-- ===== src/Tunnel.antt =====
-- core/tunnel: the tun2socks process and the SSH tunnel.
pub mod Tun2Socks
pub mod Ssh
