-- ===== src/Memory.antt =====
-- crates/mcr-memory: the guest's address space.
pub mod Error
pub mod Ranges
pub mod Vma
pub mod Map
pub mod State
pub mod Quiet
pub mod Bytes
pub mod Allocate
pub mod Reserve
pub mod Mapping
pub mod Calls
pub mod Brk
pub mod Read
pub mod Write
pub mod Intrinsics
pub mod Refines
pub mod Examples
