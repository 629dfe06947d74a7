-- ===== src/Process.antt =====
-- crates/vor-process/src/lib.rs: listing, inspecting and ending processes. The operating system
-- answers each call by what was called before.
pub mod Api
pub mod Worker
pub mod Checks
