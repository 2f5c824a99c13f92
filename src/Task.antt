-- ===== src/Task.antt =====
-- crates/mcr-task: the guest kernel's processes and tasks.
pub mod Registers
pub mod Program
pub mod Fd
pub mod Process
pub mod State
pub mod Error
pub mod Kernel
pub mod Index
pub mod Wait
pub mod Futex
pub mod Mask
pub mod Signal
pub mod Kill
pub mod Exit
pub mod Clone
pub mod Exec
pub mod Syscalls
pub mod Moves
pub mod Invariant
pub mod Preservation
pub mod Refines
pub mod Boot
pub mod Zombies
pub mod Pending
pub mod Forked
pub mod Woken
pub mod Guarantees
pub mod Reachable
pub mod Examples
