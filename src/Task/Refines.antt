-- ===== src/Task/Refines.antt =====
-- Each call of the kernel is a sequence of moves.
pub mod Signals
pub mod Calls
pub mod Sends
pub mod Ends
pub mod Forks
pub mod Waits
pub mod Futexes
pub mod Dispatch
