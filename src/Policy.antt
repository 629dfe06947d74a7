-- ===== src/Policy.antt =====
-- crates/vor-policy/src/lib.rs: the policy engine. `Config` has its configuration, `Normalize` the
-- path form that rules are matched in, `Terminal` the tests on command lines, `Engine` the
-- decisions; the other modules prove what these do.
pub mod Config
pub mod Normalize
pub mod Terminal
pub mod Engine
