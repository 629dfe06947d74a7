-- ===== src/Terminal.antt =====
-- crates/vor-terminal/src/lib.rs: the command line that a child process is given, a run within its
-- limits, and the table of terminal sessions. ConPTY and its handles are not modelled.
pub mod Types
pub mod CommandLine
pub mod Reading
pub mod Run
pub mod Termination
pub mod Sessions
pub mod Isolation
