-- ===== src/Dispatch/Checked.antt =====
-- `dispatch_approved_at` of crates/vor-dispatch/src/lib.rs: which checks an approved effect passed.
use vor_commander.Base.{
  ℕ, ◌≡◌, ◌≢◌, refl, ap, ◌∙◌, subst, Bool, true, false, not, ◌∷◌, Result, ok, err, ◌⊎◌, inl, inr,
  arith, str_eq, eq_iff,
}
use vor_commander.Protocol
use vor_commander.Protocol.{ActionRequest, PolicyDecision}
use vor_commander.Policy.Engine.{evaluate}
use vor_commander.Approval
use vor_commander.Approval.{SignedApproval}
use vor_commander.Audit.Recovery.{ExecutionRecoveryState}
use vor_commander.Core.{
  Outside, Authorization, ExecutionAuthorization, Broker, CoreError, authorize_at,
  consume_approval_at, audit_outcome_at,
}
use vor_commander.Core.Consume.{consume_checked, consume-request}
use vor_commander.Dispatch.State.{
  DispatchError, approved, Dispatcher, ActionResult, Workers, M, ◌>>◌, continue_with, fail, refuse,
  answered, is_denied, requires_approval, remote_approved_action_allowed, wrong_device,
  remote_action_not_allowed, denied, remote_approval_policy_required,
}
use vor_commander.Dispatch.Dispatcher.{Faults, audit, set_state, refuse_unneeded}
use vor_commander.Dispatch.Approved.{
  perform_approved, execute_recorded, execute_consumed, consume, approved_permitted,
  approved_decided, approved_checked, approved_on_device, dispatch_approved_at,
}
use vor_commander.Dispatch.Quiet.{
  answered-effects, ask-IsQuiet, answered-eq-ok, set_state-IsQuiet, after_worker-IsQuiet,
  authorize-policy,
}

module _ (o : Outside) (w : Workers) (request : ActionRequest) (signed : SignedApproval) (now : ℕ)
    (d : Dispatcher) where
  -- what an approved effect has passed
  abbrev IsAllowed : ExecutionAuthorization → Type 0
  IsAllowed x =
      (x.authorization.request ≡ request)
      × (request.envelope.device_id ≡ d.device_id)
      × (remote_approved_action_allowed request.envelope.action ≡ true)
      × (Protocol.verify o.hashing request now ≡ ok tt)
      × (Approval.verify o.ed25519 o.hashing d.approval_verifier request
            (evaluate o.externals d.broker.policy request) signed now
          ≡ ok tt)

  -- no worker was told anything, and the caller gets an error
  abbrev IsRefused : Dispatcher × Result DispatchError ActionResult → Type 0
  IsRefused x = (x.0.effects ≡ d.effects) × ((r : ActionResult) → x.1 ≢ ok r)

  -- one worker was told what the approval allows
  abbrev IsPerformed : Dispatcher × Result DispatchError ActionResult → Type 0
  IsPerformed x =
      (a : ExecutionAuthorization) × (x.0.effects ≡ approved a ∷ d.effects) × IsAllowed a

  abbrev pub IsOutcome : Dispatcher × Result DispatchError ActionResult → Type 0
  IsOutcome x = IsRefused x ⊎ IsPerformed x

  IsOutcome-continue {ℓ} :
      {A : Type ℓ} (x : Dispatcher × Result DispatchError A) (f : A → M ActionResult)
      → x.0.effects ≡ d.effects
      → ((a : A) → x.1 ≡ ok a → IsOutcome (f a x.0))
      → IsOutcome (continue_with f x)
  IsOutcome-continue (d', ok a) f h more = more a refl
  IsOutcome-continue (d', err e) f h more = inl (h, (λ r q. cc))

  IsOutcome-refuse :
      (c : Bool) (e : DispatchError) (k : M ActionResult) (d' : Dispatcher)
      → d'.effects ≡ d.effects
      → (c ≡ false → IsOutcome (k d'))
      → IsOutcome ((refuse c e >> k) d')
  IsOutcome-refuse true e k d' h more = inl (h, (λ r q. cc))
  IsOutcome-refuse false e k d' h more = more refl

  -- what comes after an error is not run
  IsRefused-failed {ℓ κ} :
      {A : Type ℓ} {B : Type κ} (x : Dispatcher × Result DispatchError A) (k : B → M ActionResult)
      (e : DispatchError)
      → x.0.effects ≡ d.effects
      → IsOutcome (continue_with k (continue_with (λ a. fail {A = B} e) x))
  IsRefused-failed (d', ok a) k e h = inl (h, (λ r q. cc))
  IsRefused-failed (d', err e') k e h = inl (h, (λ r q. cc))

  IsOutcome-refuse_unneeded :
      (faults : Faults) (a : Authorization) (c : Bool) (k : M ActionResult) (d' : Dispatcher)
      → d'.effects ≡ d.effects
      → IsOutcome (k d')
      → IsOutcome ((refuse_unneeded o w faults a now c >> k) d')
  IsOutcome-refuse_unneeded faults a true k d' h more = more
  IsOutcome-refuse_unneeded faults a false k d' h more =
      IsRefused-failed (audit o w faults.outcome a "remote_approval_policy_required" now d')
        (λ u. k) remote_approval_policy_required
        (ask-IsQuiet
            (λ b. audit_outcome_at o faults.outcome b a "remote_approval_policy_required" now) d'
          ∙ h)

  IsPerformed-perform :
      (faults : Faults) (a : ExecutionAuthorization) (d' : Dispatcher)
      → d'.effects ≡ d.effects
      → IsAllowed a
      → IsPerformed (perform_approved o w faults a now d')
  IsPerformed-perform faults a d' h passed = (
    a,
    after_worker-IsQuiet o w faults a.authorization now _ _ ∙ ap (λ es. approved a ∷ es) h,
    passed,
  )

  IsOutcome-execute :
      (faults : Faults) (d' : Dispatcher)
      → d'.effects ≡ d.effects
      → d'.approval_verifier ≡ d.approval_verifier
      → d'.broker.policy ≡ d.broker.policy
      → request.envelope.device_id ≡ d.device_id
      → remote_approved_action_allowed request.envelope.action ≡ true
      → IsOutcome (execute_consumed o w faults request signed now d')
  unfolding execute_consumed
  IsOutcome-execute faults d' h verifier policy device allowed =
      let call : Broker → Broker × Result CoreError ExecutionAuthorization = λ b.
        consume_approval_at o faults.verified faults.consumed b request signed d'.approval_verifier
          now in
      IsOutcome-continue (consume o w faults request signed now d')
        (execute_recorded o w faults now) (answered-effects d' (call d'.broker) ∙ h)
        (λ a consumed.
          let ran = answered-eq-ok d' (call d'.broker) a consumed in
          let (verified, _, accepted, _) =
            consume_checked o faults.verified faults.consumed d'.broker request signed
              d'.approval_verifier now a ran in
          let about =
            consume-request o faults.verified faults.consumed d'.broker request signed
              d'.approval_verifier now a ran in
          let told = answered-effects d' (call d'.broker) ∙ h in
          IsOutcome-continue
            (set_state o w a.authorization ExecutionRecoveryState.effect_uncertain now
              (consume o w faults request signed now d').0)
            (λ u. perform_approved o w faults a now)
            (set_state-IsQuiet o w a.authorization ExecutionRecoveryState.effect_uncertain now _
              ∙ told)
            (λ u q. inr (
              IsPerformed-perform faults a _
                (set_state-IsQuiet o w a.authorization ExecutionRecoveryState.effect_uncertain now _
                  ∙ told)
                (
                  about,
                  device,
                  allowed,
                  verified,
                  subst
                      (λ v.
                        Approval.verify o.ed25519 o.hashing v request
                          (evaluate o.externals d.broker.policy request) signed now
                        ≡ ok tt)
                      verifier
                      (subst
                        (λ p.
                          Approval.verify o.ed25519 o.hashing d'.approval_verifier request
                            (evaluate o.externals p request) signed now
                          ≡ ok tt)
                        policy accepted),
                ))))

  IsOutcome-decided :
      (faults : Faults) (x : Broker × Result CoreError Authorization)
      → x.0.policy ≡ d.broker.policy
      → request.envelope.device_id ≡ d.device_id
      → remote_approved_action_allowed request.envelope.action ≡ true
      → IsOutcome (continue_with (approved_decided o w faults request signed now) (answered d x))
  IsOutcome-decided faults (b, err e) policy device allowed = inl (refl, (λ r q. cc))
  IsOutcome-decided faults (b, ok a) policy device allowed =
      let d' : Dispatcher = record d { broker = b } in
      IsOutcome-refuse (is_denied a) denied (approved_permitted o w faults request signed now a) d'
        refl
        (λ kept.
          IsOutcome-refuse_unneeded faults a (requires_approval a)
            (execute_consumed o w faults request signed now) d' refl
            (IsOutcome-execute faults d' refl refl policy device allowed))

  -- An approved request has one of two outcomes. Either no worker is told anything and the caller gets
  -- an error, or exactly one worker is told to do what this very request says; then the request is for
  -- this device, its action is one that may be approved, it verifies at that time, and a registered
  -- approver's signature is accepted for the decision that the present policy takes on it.
  pub approved_checked_or_refused :
      (faults : Faults) → IsOutcome (dispatch_approved_at o w faults request signed now d)
  unfolding dispatch_approved_at
  approved_checked_or_refused faults =
      IsOutcome-refuse (not (str_eq request.envelope.device_id d.device_id)) wrong_device
        (approved_on_device o w faults request signed now) d refl
        (λ same.
          IsOutcome-refuse (not (remote_approved_action_allowed request.envelope.action))
            remote_action_not_allowed (approved_checked o w faults request signed now) d refl
            (λ allowed.
              IsOutcome-decided faults (authorize_at o faults.authorize d.broker request now)
                (authorize-policy o w faults.authorize d.broker request now)
                (ground (arith, same, eq_iff request.envelope.device_id d.device_id))
                (ground (arith, allowed))))
