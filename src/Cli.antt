-- ===== src/Cli.antt =====
-- src/vpn/cli: the commands of the terminal. What they print is left out, but for the table of
-- results.
pub mod Ipc
pub mod Measure
pub mod View
pub mod Commands
