-- ===== src/Sys.antt =====
-- The parts of crates/mcr-sys that the guest kernel stands on: errno values, syscall returns and
-- the decoded argument records.
pub mod Errno
pub mod Return
pub mod Args
