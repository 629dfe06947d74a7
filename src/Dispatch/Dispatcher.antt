-- ===== src/Dispatch/Dispatcher.antt =====
-- What the handlers of `ReadOnlyDispatcher` in crates/vor-dispatch/src/lib.rs share, with every write
-- to the ledger. A write that fails is given by `Faults`.
use vor_commander.Base.{
  ℕ, String, Bool, true, false, not, Option, List, [], ◌∷◌, ltb, str_eq, Result, ok, err, map_err,
  if◌then◌else◌, length,
}
use vor_commander.Protocol.{ActionRequest}
use vor_commander.Approval.{ApprovalChallenge}
use vor_commander.Wire.{Timestamp, pos, negsuc, ms_to_timestamp}
use vor_commander.Audit.Store.{Fault}
use vor_commander.Audit.Recovery.{ExecutionRecoveryState}
use vor_commander.Core.{
  Outside, Authorization, ExecutionAuthorization, authorize_at, audit_outcome_at,
  set_execution_recovery_state,
}
use vor_commander.Dispatch.State.{
  DispatchError, Effect, Dispatcher, Output, ActionResult, PreparedEdit, Workers, M, ◌>>=◌, ◌>>◌,
  return, fail, refuse, ask, remote_approved_action_allowed, approved, automatic, wrong_device,
  remote_action_not_allowed, remote_approval_policy_required, clock,
}

-- which writes to the ledger fail, in the order of the calls
pub record Faults : Type 0 where
  pub authorize : Fault
  pub reauthorize : Fault
  pub verified : Fault
  pub consumed : Fault
  pub outcome : Fault

-- the random nonce of a challenge, and how it is put into the output
pub record Challenges : Type 0 where
  pub nonce : List ℕ
  pub render : ApprovalChallenge → ActionRequest → Option PreparedEdit → Output

-- the match on the action of `execute_approved`
unfoldable pub execute_approved :
    Workers → List Effect → ExecutionAuthorization → Result DispatchError Output
execute_approved w done execution =
    let action = execution.authorization.request.envelope.action in
    if str_eq action "filesystem.write"
    then w.write_approved done execution
    else if str_eq action "terminal.exec"
    then w.exec_approved done execution
    else if str_eq action "process.terminate"
    then w.terminate_approved done execution
    else if str_eq action "browser.session.use"
    then w.browse_approved done execution
    else err remote_action_not_allowed

abbrev pub as_clock {ℓ κ} : {E : Type ℓ} {A : Type κ} → Result E A → Result DispatchError A
as_clock r = map_err (λ e. clock) r

module _ (o : Outside) (w : Workers) where
  -- `self.execute_approved(&execution)`, whose error is looked at
  abbrev pub run_approved : ExecutionAuthorization → M (Result DispatchError Output)
  run_approved execution d = (
    record d { effects = approved execution ∷ d.effects },
    ok (execute_approved w d.effects execution),
  )

  abbrev pub run_authorized : Authorization → M (Result DispatchError Output)
  run_authorized a d =
      (record d { effects = automatic a ∷ d.effects }, ok (w.execute_authorized d.effects a))

  abbrev pub result_at : Authorization → Output → String → Timestamp → M ActionResult
  result_at a (bytes, content_type) status completed d = (
    d,
    ok (record {
      request_id = a.request.envelope.request_id;
      exit_code = pos 0;
      status = status;
      stdout_digest = o.formats.sha256 bytes;
      stderr_digest = [];
      completed_at = completed;
      output = bytes;
      content_type = content_type;
      truncated = false;
    }),
  )

  abbrev pub result_of : Authorization → Output → String → ℕ → M ActionResult
  result_of a output status now =
      return (as_clock (ms_to_timestamp now)) >>= result_at a output status

  unfoldable pub success_result : Authorization → Output → ℕ → M ActionResult
  success_result a output now = result_of a output "ok" now

  unfoldable pub failure_result : String → String → ℕ → Result DispatchError ActionResult
  failure_result request_id status now = elim (as_clock (ms_to_timestamp now)) [
    | err e ↦ err e
    | ok completed ↦ ok (record {
      request_id = request_id;
      exit_code = negsuc 0;
      status = status;
      stdout_digest = o.formats.sha256 [];
      stderr_digest = [];
      completed_at = completed;
      output = [];
      content_type = "application/vnd.vor.error";
      truncated = false;
    })
  ]

  -- `self.broker.audit_outcome_at(…)?`
  abbrev pub audit : Fault → Authorization → String → ℕ → M (Unit {0})
  audit fault a outcome now = ask (λ b. audit_outcome_at o fault b a outcome now)

  abbrev pub set_state : Authorization → ExecutionRecoveryState → ℕ → M (Unit {0})
  set_state a state now = ask (λ b. set_execution_recovery_state o b a state now)

  abbrev pub is_too_large : Dispatcher → Output → Bool
  is_too_large d (bytes, content_type) = ltb d.max_output_bytes (length bytes)

  -- what a decision that needs no approval gets
  abbrev pub refuse_unneeded : Faults → Authorization → ℕ → Bool → M (Unit {0})
  refuse_unneeded faults a now true = return (ok tt)
  refuse_unneeded faults a now false = do
    audit faults.outcome a "remote_approval_policy_required" now
    fail remote_approval_policy_required

  -- the first check of every handler
  abbrev pub check_device : ActionRequest → M (Unit {0})
  check_device request d =
      refuse (not (str_eq request.envelope.device_id d.device_id)) wrong_device d

  abbrev pub authorize : Fault → ActionRequest → ℕ → M Authorization
  authorize fault request now = ask (λ b. authorize_at o fault b request now)

  -- the second check of a handler of actions that need an approval
  abbrev pub check_approved_action : ActionRequest → M (Unit {0})
  check_approved_action request =
      refuse (not (remote_approved_action_allowed request.envelope.action))
        remote_action_not_allowed

  -- an outcome that is written before the request is refused
  abbrev pub refuse_audited :
      Faults → Authorization → ℕ → String → DispatchError → Bool → M (Unit {0})
  refuse_audited faults a now outcome e false = return (ok tt)
  refuse_audited faults a now outcome e true = do audit faults.outcome a outcome now; fail e
