-- ===== src/Audit.antt =====
-- crates/vor-audit/src/lib.rs: the audit ledger. `Types` has its records and errors, `Table` the
-- two tables with a composite key, `Store` the operations on the database and the JSONL file,
-- `Recovery` the approval claims and the states of an execution; the others prove what they do.
pub mod Types
pub mod Table
pub mod Store
pub mod Recovery
