-- ===== src/Examples.antt =====
-- Concrete inputs: every theorem with conditions is applied to a case where they hold.
pub mod Data
pub mod Requests
pub mod Paths
pub mod Policies
pub mod Approvals
pub mod Ledgers
pub mod Brokers
pub mod Frames
pub mod Grants
pub mod Terminals
pub mod Processes
pub mod Billings
pub mod Dispatches
pub mod Relays
