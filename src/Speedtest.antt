-- ===== src/Speedtest.antt =====
-- src/vpn/core/speedtest: the lock of a run, the stored results, the runner of the speedtest program.
pub mod Lock
pub mod Store
pub mod Runner
pub mod Render
