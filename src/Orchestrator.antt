-- ===== src/Orchestrator.antt =====
-- core/orchestrator.py: the bootstrap sequence, the teardown, and the wait for the SOCKS port.
pub mod Teardown
pub mod Bootstrap
