-- ===== src/Dispatch/Quiet.antt =====
-- The parts of `dispatch_approved_at` of crates/vor-dispatch/src/lib.rs that tell no worker anything.
use vor_commander.Base.{ℕ, String, ◌≡◌, refl, ◌∙◌, Bool, true, false, List, Result, ok, err, length}
use vor_commander.Protocol.{ActionRequest, PolicyDecision}
use vor_commander.Wire.{ms_to_timestamp}
use vor_commander.Audit.Store.{Fault}
use vor_commander.Audit.Recovery.{ExecutionRecoveryState}
use vor_commander.Core.{
  Outside, Authorization, Broker, CoreError, authorize_at, decide, write_authorization,
  audit_outcome_at, set_execution_recovery_state,
}
use vor_commander.Dispatch.State.{
  DispatchError, Effect, Dispatcher, ActionResult, Output, Workers, M, ◌>>=◌, ◌>>◌, continue_with,
  return, fail, answered, ask, try_ask, output_too_large, post_effect_uncertain,
}
use vor_commander.Dispatch.Dispatcher.{
  Faults, as_clock, result_at, result_of, success_result, audit, set_state, is_too_large,
}
use vor_commander.Dispatch.Approved.{after_audit, limit_approved, check_approved, after_worker}

-- a computation that tells no worker anything
abbrev pub IsQuiet {ℓ} : {A : Type ℓ} → M A → Type 0
IsQuiet m = (d : Dispatcher) → (m d).0.effects ≡ d.effects

pub continue-effects {ℓ κ} :
    {A : Type ℓ} {B : Type κ} (es : List Effect) (x : Dispatcher × Result DispatchError A)
    (f : A → M B)
    → x.0.effects ≡ es
    → ((a : A) → IsQuiet (f a))
    → (continue_with f x).0.effects ≡ es
continue-effects es (d, ok a) f h more = more a d ∙ h
continue-effects es (d, err e) f h more = h

pub seq-IsQuiet {ℓ κ} :
    {A : Type ℓ} {B : Type κ} (m : M A) (f : A → M B)
    → IsQuiet m
    → ((a : A) → IsQuiet (f a))
    → IsQuiet (m >>= f)
seq-IsQuiet m f h more d = continue-effects d.effects (m d) f (h d) more

pub answered-effects {ℓ} :
    {A : Type ℓ} (d : Dispatcher) (x : Broker × Result CoreError A)
    → (answered d x).0.effects ≡ d.effects
answered-effects d (b, ok a) = refl
answered-effects d (b, err e) = refl

pub ask-IsQuiet {ℓ} :
    {A : Type ℓ} (call : Broker → Broker × Result CoreError A) → IsQuiet (ask call)
ask-IsQuiet call d = answered-effects d (call d.broker)

pub answered-eq-ok {ℓ} :
    {A : Type ℓ} (d : Dispatcher) (x : Broker × Result CoreError A) (a : A)
    → (answered d x).1 ≡ ok a
    → x.1 ≡ ok a
answered-eq-ok d (b, ok a) a' h = cc
answered-eq-ok d (b, err e) a' h = cc

module _ (o : Outside) (w : Workers) where
  result_of-IsQuiet :
      (a : Authorization) (output : Output) (status : String) (now : ℕ)
      → IsQuiet (result_of o w a output status now)
  result_of-IsQuiet a output status now =
      seq-IsQuiet (return (as_clock (ms_to_timestamp now))) (result_at o w a output status)
        (λ d. refl) (λ completed d. refl)

  pub audit-fail-IsQuiet {ℓ} :
      (A : Type ℓ) (fault : Fault) (a : Authorization) (text : String) (now : ℕ) (e : DispatchError)
      → IsQuiet (audit o w fault a text now >> fail {A = A} e)
  audit-fail-IsQuiet A fault a text now e =
      seq-IsQuiet (audit o w fault a text now) (λ u. fail {A = A} e)
        (ask-IsQuiet (λ b. audit_outcome_at o fault b a text now)) (λ u d. refl)

  pub set_state-IsQuiet :
      (a : Authorization) (s : ExecutionRecoveryState) (now : ℕ) → IsQuiet (set_state o w a s now)
  set_state-IsQuiet a s now = ask-IsQuiet (λ b. set_execution_recovery_state o b a s now)

  after_audit-IsQuiet :
      (a : Authorization) (output : Output) (now : ℕ) (r : Result CoreError (Unit {0}))
      → IsQuiet (after_audit o w a output now r)
  unfolding success_result
  after_audit-IsQuiet a output now (err e) =
      seq-IsQuiet (set_state o w a ExecutionRecoveryState.post_effect_uncertain now)
        (λ u. fail {A = ActionResult} (post_effect_uncertain e))
        (set_state-IsQuiet a ExecutionRecoveryState.post_effect_uncertain now) (λ u d. refl)
  after_audit-IsQuiet a output now (ok v) =
      seq-IsQuiet (set_state o w a ExecutionRecoveryState.completed now)
        (λ u. result_of o w a output "ok" now)
        (set_state-IsQuiet a ExecutionRecoveryState.completed now)
        (λ u. result_of-IsQuiet a output "ok" now)

  limit_approved-IsQuiet :
      (faults : Faults) (a : Authorization) (now : ℕ) (output : Output) (c : Bool)
      → IsQuiet (limit_approved o w faults a now output c)
  limit_approved-IsQuiet faults a now (bytes, t) true =
      audit-fail-IsQuiet ActionResult faults.outcome a "output_limit_exceeded" now
        (output_too_large (length bytes))
  limit_approved-IsQuiet faults a now (bytes, t) false =
      seq-IsQuiet (try_ask (λ b. audit_outcome_at o faults.outcome b a "executed" now))
        (after_audit o w a (bytes, t) now) (λ d. refl) (λ r. after_audit-IsQuiet a (bytes, t) now r)

  pub after_worker-IsQuiet :
      (faults : Faults) (a : Authorization) (now : ℕ) (r : Result DispatchError Output)
      → IsQuiet (after_worker o w faults a now r)
  after_worker-IsQuiet faults a now (err e) =
      audit-fail-IsQuiet ActionResult faults.outcome a "worker_failed" now e
  after_worker-IsQuiet faults a now (ok output) =
      seq-IsQuiet (set_state o w a ExecutionRecoveryState.effect_applied now)
        (λ u. check_approved o w faults a now output)
        (set_state-IsQuiet a ExecutionRecoveryState.effect_applied now)
        (λ u d. limit_approved-IsQuiet faults a now output (is_too_large o w d output) d)

  write-policy :
      (fault : Fault) (b : Broker) (request : ActionRequest) (now : ℕ)
      (m : Result CoreError PolicyDecision)
      → (write_authorization o fault b request now m).0.policy ≡ b.policy
  write-policy fault b request now (err e) = refl
  write-policy fault b request now (ok decision) = refl

  pub authorize-policy :
      (fault : Fault) (b : Broker) (request : ActionRequest) (now : ℕ)
      → (authorize_at o fault b request now).0.policy ≡ b.policy
  unfolding authorize_at
  authorize-policy fault b request now = write-policy fault b request now (decide o b request now)
