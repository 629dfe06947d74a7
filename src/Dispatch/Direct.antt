-- ===== src/Dispatch/Direct.antt =====
-- `dispatch_at` of crates/vor-dispatch/src/lib.rs, cut where its proofs need a name.
use vor_commander.Base.{ℕ, Bool, true, false, not, Result, ok, err, length}
use vor_commander.Protocol.{ActionRequest}
use vor_commander.Core.{Outside, Authorization}
use vor_commander.Dispatch.State.{
  DispatchError, Output, ActionResult, Workers, M, ◌>>=◌, ◌>>◌, fail, refuse, is_denied,
  requires_approval, remote_action_allowed, remote_action_not_allowed, denied, approval_required,
  output_too_large,
}
use vor_commander.Dispatch.Dispatcher.{
  run_authorized, success_result, audit, is_too_large, check_device, authorize, refuse_audited,
  Faults,
}

module _ (o : Outside) (w : Workers) where
  abbrev pub limit_authorized : Faults → Authorization → ℕ → Output → Bool → M ActionResult
  limit_authorized faults a now (bytes, content_type) true = do
    audit o w faults.outcome a "output_limit_exceeded" now
    fail (output_too_large (length bytes))
  limit_authorized faults a now output false = do
    audit o w faults.outcome a "executed" now
    success_result o w a output now

  abbrev pub check_authorized : Faults → Authorization → ℕ → Output → M ActionResult
  check_authorized faults a now output d =
      limit_authorized faults a now output (is_too_large o w d output) d

  abbrev pub after_authorized :
      Faults → Authorization → ℕ → Result DispatchError Output → M ActionResult
  after_authorized faults a now (err e) = do audit o w faults.outcome a "worker_failed" now; fail e
  after_authorized faults a now (ok output) = check_authorized faults a now output

  abbrev pub perform_authorized : Faults → ℕ → Authorization → M ActionResult
  perform_authorized faults now a = run_authorized o w a >>= after_authorized faults a now

  abbrev pub perform_permitted : Faults → ℕ → Authorization → M ActionResult
  perform_permitted faults now a = do
    refuse_audited o w faults a now "remote_approval_required" approval_required
        (requires_approval a)
    perform_authorized faults now a

  -- from the checks of the decision on
  abbrev pub perform_decided : Faults → ℕ → Authorization → M ActionResult
  perform_decided faults now a = refuse (is_denied a) denied >> perform_permitted faults now a

  abbrev pub scope_decided : Faults → ℕ → Authorization → M ActionResult
  scope_decided faults now a = do
    refuse_audited o w faults a now "remote_scope_denied" remote_action_not_allowed
        (not (remote_action_allowed a.request.envelope.action))
    perform_decided faults now a

  abbrev pub dispatch_on_device : Faults → ActionRequest → ℕ → M ActionResult
  dispatch_on_device faults request now =
      authorize o w faults.authorize request now >>= scope_decided faults now

  unfoldable pub dispatch_at : Faults → ActionRequest → ℕ → M ActionResult
  dispatch_at faults request now = check_device o w request >> dispatch_on_device faults request now
