-- ===== src/Dispatch.antt =====
-- crates/vor-dispatch/src/lib.rs: what a device does with a remote request. `State` has the
-- dispatcher and its monad, `Dispatcher`, `Approved`, `Direct` and `Prepare`
-- the handlers; the other modules prove which effects happen.
pub mod State
pub mod Dispatcher
pub mod Approved
pub mod Direct
pub mod Prepare
pub mod Hoare
pub mod Free
pub mod Once
pub mod Steps
pub mod Quiet
pub mod Checked
