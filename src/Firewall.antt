-- ===== src/Firewall.antt =====
-- core/firewall: NAT, MSS clamping and the kernel parameters.
pub mod Nat
pub mod Mss
pub mod Sysctl
