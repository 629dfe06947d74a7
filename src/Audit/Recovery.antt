-- ===== src/Audit/Recovery.antt =====
-- Approval claims and execution states of crates/vor-audit/src/lib.rs.
pub mod OneShot
pub mod Forward
pub mod Opened
use vor_commander.Base.{
  ℕ, String, ◌^◌, Bool, true, false, not, Option, none, some, List, [], ◌∷◌, str_eq, ltb, leb,
  if◌then◌else◌, Result, ok, err, ok_or, ◌>>=◌, ◌>>◌, reject_if,
}
use vor_commander.Audit.Types.{
  AuditError, invalid_sequence, invalid_execution_state, missing_execution_state,
  invalid_execution_transition, sqlite,
}
use vor_commander.Audit.Table.{Key, Table, find_row, add_row, update_row}
use vor_commander.Audit.Store.{Disk}

pub data ExecutionRecoveryState : Type 0 where
  not_executed effect_uncertain effect_applied post_effect_uncertain : ExecutionRecoveryState
  completed : ExecutionRecoveryState

unfoldable pub as_str : ExecutionRecoveryState → String
as_str not_executed = "not_executed"
as_str effect_uncertain = "effect_uncertain"
as_str effect_applied = "effect_applied"
as_str post_effect_uncertain = "post_effect_uncertain"
as_str completed = "completed"

abbrev pub rank : ExecutionRecoveryState → ℕ
rank not_executed = 0
rank effect_uncertain = 1
rank effect_applied = 2
rank post_effect_uncertain = 3
rank completed = 4

unfoldable pub parse_state : String → Result AuditError ExecutionRecoveryState
parse_state value =
    if str_eq value "not_executed"
    then ok not_executed
    else if str_eq value "effect_uncertain"
    then ok effect_uncertain
    else if str_eq value "effect_applied"
    then ok effect_applied
    else if str_eq value "post_effect_uncertain"
    then ok post_effect_uncertain
    else if str_eq value "completed"
    then ok completed
    else err invalid_execution_state

-- The time is converted to an `i64` before anything is written.
abbrev pub checked_time : ℕ → Result AuditError ℕ
checked_time t = if leb (2 ^ 63) t then err invalid_sequence else ok t

-- The transaction of `claim_approval_consumed`: both inserts, or neither. The second insert is no
-- `OR IGNORE`, so it fails where the execution row is already there.
abbrev pub claim_new : Key → ℕ → Disk → Option (String × ℕ) → Disk × Result AuditError Bool
claim_new k now disk (some v) = (disk, err sqlite)
claim_new k now disk none = (
  record disk {
    consumptions = add_row k now disk.consumptions;
    executions = add_row k ("not_executed", now) disk.executions;
  },
  ok true,
)

abbrev pub claim_seen : Key → ℕ → Disk → Option ℕ → Disk × Result AuditError Bool
claim_seen k now disk (some v) = (disk, ok false)
claim_seen k now disk none = claim_new k now disk (find_row k disk.executions)

abbrev pub claim_at : Key → Disk → Result AuditError ℕ → Disk × Result AuditError Bool
claim_at k disk (err e) = (disk, err e)
claim_at k disk (ok now) = claim_seen k now disk (find_row k disk.consumptions)

unfoldable pub claim_approval_consumed : Key → ℕ → Disk → Disk × Result AuditError Bool
claim_approval_consumed k consumed_at_unix_ms disk =
    claim_at k disk (checked_time consumed_at_unix_ms)

-- The new table of `set_execution_recovery_state`, or its error, which rolls the transaction back.
unfoldable pub next_executions :
    Key → ExecutionRecoveryState → ℕ → Table (String × ℕ) → Result AuditError (Table (String × ℕ))
next_executions k state updated_at_unix_ms t = do
  current ← ok_or (find_row k t) missing_execution_state
  old ← parse_state current.0
  reject_if (ltb (rank state) (rank old)) invalid_execution_transition
  now ← checked_time updated_at_unix_ms
  ok (update_row k (as_str state, now) t)

abbrev pub store_executions :
    Disk → Result AuditError (Table (String × ℕ)) → Disk × Result AuditError (Unit {0})
store_executions disk (err e) = (disk, err e)
store_executions disk (ok t) = (record disk { executions = t }, ok tt)

unfoldable pub set_execution_recovery_state :
    Key → ExecutionRecoveryState → ℕ → Disk → Disk × Result AuditError (Unit {0})
unfolding next_executions
set_execution_recovery_state k state updated_at_unix_ms disk =
    store_executions disk (next_executions k state updated_at_unix_ms disk.executions)

abbrev pub parse_found : Option (String × ℕ) → Result AuditError (Option ExecutionRecoveryState)
parse_found none = ok none
parse_found (some (text, t)) = do s ← parse_state text; ok (some s)

unfoldable pub execution_recovery_state :
    Key → Disk → Result AuditError (Option ExecutionRecoveryState)
execution_recovery_state k disk = parse_found (find_row k disk.executions)
