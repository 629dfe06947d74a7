-- ===== src/Dispatch/Approved.antt =====
-- `dispatch_approved_at` of crates/vor-dispatch/src/lib.rs, cut where its proofs need a name.
use vor_commander.Base.{ℕ, Bool, true, false, Result, ok, err, length}
use vor_commander.Protocol.{ActionRequest}
use vor_commander.Approval.{SignedApproval}
use vor_commander.Audit.Recovery.{ExecutionRecoveryState}
use vor_commander.Core.{
  Outside, Authorization, ExecutionAuthorization, CoreError, consume_approval_at, audit_outcome_at,
}
use vor_commander.Dispatch.State.{
  DispatchError, Output, ActionResult, Workers, M, ◌>>=◌, ◌>>◌, fail, refuse, ask, try_ask,
  is_denied, requires_approval, denied, output_too_large, post_effect_uncertain,
}
use vor_commander.Dispatch.Dispatcher.{
  run_approved, success_result, audit, set_state, is_too_large, refuse_unneeded, check_device,
  authorize, check_approved_action, Faults,
}

module _ (o : Outside) (w : Workers) where
  -- `dispatch_approved_at` from the match on the last audit o w on
  abbrev pub after_audit : Authorization → Output → ℕ → Result CoreError (Unit {0}) → M ActionResult
  after_audit a output now (err e) = do
    set_state o w a ExecutionRecoveryState.post_effect_uncertain now
    fail (post_effect_uncertain e)
  after_audit a output now (ok u) = do
    set_state o w a ExecutionRecoveryState.completed now
    success_result o w a output now

  -- from the check of the output's length on
  abbrev pub limit_approved : Faults → Authorization → ℕ → Output → Bool → M ActionResult
  limit_approved faults a now (bytes, content_type) true = do
    audit o w faults.outcome a "output_limit_exceeded" now
    fail (output_too_large (length bytes))
  limit_approved faults a now output false = do
    audited ← try_ask (λ b. audit_outcome_at o faults.outcome b a "executed" now)
    after_audit a output now audited

  abbrev pub check_approved : Faults → Authorization → ℕ → Output → M ActionResult
  check_approved faults a now output d =
      limit_approved faults a now output (is_too_large o w d output) d

  -- from the match on the worker's result on
  abbrev pub after_worker :
      Faults → Authorization → ℕ → Result DispatchError Output → M ActionResult
  after_worker faults a now (err e) = do audit o w faults.outcome a "worker_failed" now; fail e
  after_worker faults a now (ok output) = do
    set_state o w a ExecutionRecoveryState.effect_applied now
    check_approved faults a now output

  -- the worker is told only after the ledger says that the effect is uncertain
  abbrev pub perform_approved : Faults → ExecutionAuthorization → ℕ → M ActionResult
  perform_approved faults execution now =
      run_approved o w execution >>= after_worker faults execution.authorization now

  abbrev pub execute_recorded : Faults → ℕ → ExecutionAuthorization → M ActionResult
  execute_recorded faults now execution = do
    set_state o w execution.authorization ExecutionRecoveryState.effect_uncertain now
    perform_approved faults execution now

  -- `self.broker.consume_approval_at(…)?`
  abbrev pub consume : Faults → ActionRequest → SignedApproval → ℕ → M ExecutionAuthorization
  consume faults request signed now d =
      ask
        (λ b.
          consume_approval_at o faults.verified faults.consumed b request signed d.approval_verifier
            now)
        d

  -- from the consumption of the approval on
  unfoldable pub execute_consumed : Faults → ActionRequest → SignedApproval → ℕ → M ActionResult
  execute_consumed faults request signed now =
      consume faults request signed now >>= execute_recorded faults now

  abbrev pub approved_permitted :
      Faults → ActionRequest → SignedApproval → ℕ → Authorization → M ActionResult
  approved_permitted faults request signed now a = do
    refuse_unneeded o w faults a now (requires_approval a)
    execute_consumed faults request signed now

  -- from the decision on
  abbrev pub approved_decided :
      Faults → ActionRequest → SignedApproval → ℕ → Authorization → M ActionResult
  approved_decided faults request signed now a =
      refuse (is_denied a) denied >> approved_permitted faults request signed now a

  abbrev pub approved_checked : Faults → ActionRequest → SignedApproval → ℕ → M ActionResult
  approved_checked faults request signed now =
      authorize o w faults.authorize request now >>= approved_decided faults request signed now

  abbrev pub approved_on_device : Faults → ActionRequest → SignedApproval → ℕ → M ActionResult
  approved_on_device faults request signed now =
      check_approved_action o w request >> approved_checked faults request signed now

  unfoldable pub dispatch_approved_at : Faults → ActionRequest → SignedApproval → ℕ → M ActionResult
  dispatch_approved_at faults request signed now =
      check_device o w request >> approved_on_device faults request signed now
