-- ===== src/Machine.antt =====
-- core/state_machine: the states, the methods that the command line calls, and the event loop.
pub mod States
pub mod Servers
pub mod Replies
pub mod Power
pub mod Lists
pub mod Rpc
pub mod Loop
