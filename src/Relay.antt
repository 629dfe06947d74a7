-- ===== src/Relay.antt =====
-- apps/vor-relay/src/lib.rs: the hub that passes requests to devices and results back. `Pending` has
-- its map of pending results, `Hub` the operations, `Steps` their interleavings; the other modules
-- prove which results a caller can get, and that every call can end.
pub mod Pending
pub mod Hub
pub mod Steps
pub mod Matching
pub mod Calls
pub mod Results
pub mod Backlog
