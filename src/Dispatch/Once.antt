-- ===== src/Dispatch/Once.antt =====
-- Every handler of crates/vor-dispatch/src/lib.rs keeps the effects safe: an approved one has its
-- approval consumed in the ledger, and no two are for one request.
use vor_commander.Base.{ℕ, Bool, true, false, not, Option, none, some, Result, ok, err, length}
use vor_commander.Base.Map.{get}
use vor_commander.Json.{Value}
use vor_commander.Protocol.{ActionRequest, seal}
use vor_commander.Approval.{SignedApproval}
use vor_commander.Audit.Recovery.{ExecutionRecoveryState}
use vor_commander.Core.{Outside, Authorization, CoreError, audit_outcome_at}
use vor_commander.Dispatch.State.{
  DispatchError, Dispatcher, ActionResult, Output, PreparedEdit, Workers, return, try_ask, fail,
  is_denied, requires_approval, remote_action_allowed, remote_approved_action_allowed,
  remote_action_not_allowed, denied, approval_required, output_too_large, post_effect_uncertain,
}
use vor_commander.Dispatch.Dispatcher.{
  Challenges, Faults, authorize, is_too_large, refuse_audited, refuse_unneeded, result_of,
  run_authorized, success_result,
}
use vor_commander.Dispatch.Approved.{
  after_audit, after_worker, approved_checked, approved_decided, approved_on_device,
  approved_permitted, check_approved, dispatch_approved_at, execute_consumed, execute_recorded,
  limit_approved, perform_approved,
}
use vor_commander.Dispatch.Direct.{
  after_authorized, dispatch_at, dispatch_on_device, limit_authorized, perform_authorized,
  perform_decided, perform_permitted, scope_decided,
}
use vor_commander.Dispatch.Prepare.{
  as_parameters, authorize_edit, authorize_sealed, challenge_expiry, challenge_until,
  complete_automatic, dispatch_request, is_automatic, issue_challenge, prepare_approved_at,
  prepare_authorized, prepare_challenge, prepare_checked, prepare_completed, prepare_decided,
  prepare_on_device, prepare_permitted, prepare_present, prepare_recipe, present_challenge,
  transformed,
}
use vor_commander.Dispatch.Hoare.{
  Held, IsOnce, Post-continue, Held-try_audit, Held-set_state, Held-consume,
}
use vor_commander.Dispatch.Free.{
  Fine, Free, IsFree, seq-IsFree, refuse-IsFree, return-IsFree, if-IsFree, audit-fail-Free,
  audit-result-Free, authorize-IsFree, check_approved_action-IsFree, check_device-IsFree,
  refuse_audited-Free, refuse_unneeded-Free, result_of-Free, run_authorized-IsFree,
}

module _ (o : Outside) (w : Workers) where
  after_audit-Free :
      (a : Authorization) (output : Output) (now : ℕ) (r : Result CoreError (Unit {0}))
      (d : Dispatcher)
      → IsOnce d
      → Free (after_audit o w a output now r d)
  unfolding success_result
  after_audit-Free a output now (err e) d h =
      Post-continue Fine (Fine {A = ActionResult}) _ (λ u. fail (post_effect_uncertain e))
        (Held-set_state o none d a ExecutionRecoveryState.post_effect_uncertain now h) (λ u d' k. k)
  after_audit-Free a output now (ok v) d h =
      Post-continue Fine Fine _ (λ u. result_of o w a output "ok" now)
        (Held-set_state o none d a ExecutionRecoveryState.completed now h)
        (λ u d' k. result_of-Free o w a output "ok" now d' k)

  limit_approved-Free :
      (faults : Faults) (a : Authorization) (now : ℕ) (output : Output) (c : Bool) (d : Dispatcher)
      → IsOnce d
      → Free (limit_approved o w faults a now output c d)
  limit_approved-Free faults a now (bytes, t) true d h =
      audit-fail-Free o w ActionResult faults.outcome a "output_limit_exceeded" now
        (output_too_large (length bytes)) d h
  limit_approved-Free faults a now (bytes, t) false d h =
      Post-continue Fine Fine
        (try_ask (λ b. audit_outcome_at o faults.outcome b a "executed" now) d)
        (after_audit o w a (bytes, t) now)
        (Held-try_audit o none d faults.outcome a "executed" now h)
        (λ r d' k. after_audit-Free a (bytes, t) now r d' k)

  after_worker-Free :
      (faults : Faults) (a : Authorization) (now : ℕ) (r : Result DispatchError Output)
      (d : Dispatcher)
      → IsOnce d
      → Free (after_worker o w faults a now r d)
  after_worker-Free faults a now (err e) d h =
      audit-fail-Free o w ActionResult faults.outcome a "worker_failed" now e d h
  after_worker-Free faults a now (ok output) d h =
      Post-continue Fine Fine _ (λ u. check_approved o w faults a now output)
        (Held-set_state o none d a ExecutionRecoveryState.effect_applied now h)
        (λ u d' k. limit_approved-Free faults a now output (is_too_large o w d' output) d' k)

  execute_consumed-Free :
      (faults : Faults) (request : ActionRequest) (signed : SignedApproval) (now : ℕ)
      (d : Dispatcher)
      → IsOnce d
      → Free (execute_consumed o w faults request signed now d)
  unfolding execute_consumed
  execute_consumed-Free faults request signed now d h =
      Post-continue (λ a d'. Held (some a) d') Fine _ (execute_recorded o w faults now)
        (Held-consume o d faults.verified faults.consumed request signed d.approval_verifier now h)
        (λ execution d' k.
          Post-continue (λ u d''. Held (some execution) d'') Fine _
            (λ u. perform_approved o w faults execution now)
            (Held-set_state o (some execution) d' execution.authorization
              ExecutionRecoveryState.effect_uncertain now k)
            (λ u d'' k'. after_worker-Free faults execution.authorization now _ _ k'))

  approved_decided-IsFree :
      (faults : Faults) (request : ActionRequest) (signed : SignedApproval) (now : ℕ)
      (a : Authorization)
      → IsFree (approved_decided o w faults request signed now a)
  approved_decided-IsFree faults request signed now a =
      refuse-IsFree (is_denied a) denied (approved_permitted o w faults request signed now a) (
        seq-IsFree (refuse_unneeded o w faults a now (requires_approval a))
          (λ u. execute_consumed o w faults request signed now)
          (refuse_unneeded-Free o w faults a now (requires_approval a))
          (λ u. execute_consumed-Free faults request signed now))

  pub dispatch_approved_at-IsFree :
      (faults : Faults) (request : ActionRequest) (signed : SignedApproval) (now : ℕ)
      → IsFree (dispatch_approved_at o w faults request signed now)
  unfolding dispatch_approved_at
  dispatch_approved_at-IsFree faults request signed now =
      check_device-IsFree o w request (approved_on_device o w faults request signed now) (
        check_approved_action-IsFree o w request (approved_checked o w faults request signed now) (
          seq-IsFree (authorize o w faults.authorize request now)
            (approved_decided o w faults request signed now)
            (authorize-IsFree o w faults.authorize request now)
            (approved_decided-IsFree faults request signed now)))

  limit_authorized-IsFree :
      (faults : Faults) (a : Authorization) (now : ℕ) (output : Output) (c : Bool)
      → IsFree (limit_authorized o w faults a now output c)
  unfolding success_result
  limit_authorized-IsFree faults a now (bytes, t) true =
      audit-fail-Free o w ActionResult faults.outcome a "output_limit_exceeded" now
        (output_too_large (length bytes))
  limit_authorized-IsFree faults a now (bytes, t) false =
      audit-result-Free o w faults.outcome a a "executed" "ok" (bytes, t) now

  after_authorized-IsFree :
      (faults : Faults) (a : Authorization) (now : ℕ) (r : Result DispatchError Output)
      → IsFree (after_authorized o w faults a now r)
  after_authorized-IsFree faults a now (err e) =
      audit-fail-Free o w ActionResult faults.outcome a "worker_failed" now e
  after_authorized-IsFree faults a now (ok output) =
      λ d. limit_authorized-IsFree faults a now output (is_too_large o w d output) d

  scope_decided-IsFree :
      (faults : Faults) (now : ℕ) (a : Authorization) → IsFree (scope_decided o w faults now a)
  scope_decided-IsFree faults now a =
      seq-IsFree
        (refuse_audited o w faults a now "remote_scope_denied" remote_action_not_allowed
          (not (remote_action_allowed a.request.envelope.action)))
        (λ u. perform_decided o w faults now a) (refuse_audited-Free o w faults a now _ _ _)
        (λ u. refuse-IsFree (is_denied a) denied (perform_permitted o w faults now a) (
          seq-IsFree
            (refuse_audited o w faults a now "remote_approval_required" approval_required
              (requires_approval a))
            (λ u. perform_authorized o w faults now a) (refuse_audited-Free o w faults a now _ _ _)
            (λ u.
              seq-IsFree (run_authorized o w a) (after_authorized o w faults a now)
                (run_authorized-IsFree o w a) (after_authorized-IsFree faults a now))))

  pub dispatch_at-IsFree :
      (faults : Faults) (request : ActionRequest) (now : ℕ)
      → IsFree (dispatch_at o w faults request now)
  unfolding dispatch_at
  dispatch_at-IsFree faults request now =
      check_device-IsFree o w request (dispatch_on_device o w faults request now) (
        seq-IsFree (authorize o w faults.authorize request now) (scope_decided o w faults now)
          (authorize-IsFree o w faults.authorize request now) (scope_decided-IsFree faults now))

  prepare_recipe-IsFree :
      (faults : Faults) (a : Authorization) (now : ℕ) (recipe : Option Value)
      → IsFree (prepare_recipe o w faults a now recipe)
  prepare_recipe-IsFree faults a now none = λ d h. h
  prepare_recipe-IsFree faults a now (some recipe) =
      return-IsFree (w.prepare_edit a recipe) (authorize_edit o w faults a now) (λ p.
        return-IsFree (as_parameters o w (seal o.hashing (transformed o w a.request.envelope p)))
          (authorize_sealed o w faults now p)
          (λ request.
            seq-IsFree (authorize o w faults.reauthorize request now)
              (λ again. return (ok (again, some p)))
              (authorize-IsFree o w faults.reauthorize request now) (λ again d h. h)))

  prepare_decided-IsFree :
      (faults : Faults) (c : Challenges) (now : ℕ) (a : Authorization) (edit : Option PreparedEdit)
      (automatic : Bool)
      → IsFree (prepare_decided o w faults c now a edit automatic)
  unfolding success_result
  prepare_decided-IsFree faults c now a edit true =
      seq-IsFree (run_authorized o w a) (prepare_completed o w faults a now)
        (run_authorized-IsFree o w a)
        (λ result.
          return-IsFree result (complete_automatic o w faults a now)
            (λ output. audit-result-Free o w faults.outcome a a "executed" "ok" output now))
  prepare_decided-IsFree faults c now a edit false =
      seq-IsFree (refuse_unneeded o w faults a now (requires_approval a))
        (λ u. prepare_challenge o w faults c now a edit)
        (refuse_unneeded-Free o w faults a now (requires_approval a))
        (λ u.
          return-IsFree (challenge_expiry o w now a.request)
            (challenge_until o w faults c now a edit)
            (λ expires.
              return-IsFree (issue_challenge o w c now a expires)
                (present_challenge o w faults c now a edit)
                (λ challenge.
                  audit-result-Free o w faults.outcome a a "approval_challenge_issued"
                    "approval_required" (c.render challenge a.request edit) now)))

  pub prepare_approved_at-IsFree :
      (faults : Faults) (c : Challenges) (request : ActionRequest) (now : ℕ)
      → IsFree (prepare_approved_at o w faults c request now)
  unfolding prepare_approved_at
  prepare_approved_at-IsFree faults c request now =
      check_device-IsFree o w request (prepare_on_device o w faults c request now) (
        check_approved_action-IsFree o w request (prepare_checked o w faults c request now) (
          seq-IsFree (authorize o w faults.authorize request now)
            (prepare_authorized o w faults c now)
            (authorize-IsFree o w faults.authorize request now)
            (λ first.
              refuse-IsFree (is_denied first) denied (prepare_permitted o w faults c now first) (
                seq-IsFree
                  (prepare_recipe o w faults first now
                    (get "edit_recipe" first.request.envelope.parameters))
                  (prepare_present o w faults c now)
                  (prepare_recipe-IsFree faults first now
                    (get "edit_recipe" first.request.envelope.parameters))
                  (λ p. prepare_decided-IsFree faults c now p.0 p.1 (is_automatic o w p.0))))))

  pub dispatch_request-IsFree :
      (faults : Faults) (c : Challenges) (request : ActionRequest) (now : ℕ)
      → IsFree (dispatch_request o w faults c request now)
  unfolding dispatch_request
  dispatch_request-IsFree faults c request now =
      if-IsFree (remote_approved_action_allowed request.envelope.action)
        (prepare_approved_at o w faults c request now) (dispatch_at o w faults request now)
        (prepare_approved_at-IsFree faults c request now) (dispatch_at-IsFree faults request now)
