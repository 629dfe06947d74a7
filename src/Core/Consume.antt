-- ===== src/Core/Consume.antt =====
-- `consume_approval_at` of crates/vor-core/src/lib.rs: what a consumed approval has passed, and that
-- it is consumed once, whatever the broker does after.
use vor_commander.Base.{
  ℕ, String, ◌≡◌, ◌≢◌, refl, sym, ◌∙◌, ap, Bool, true, false, not, List, [], ◌∷◌, Result, ok, err,
  map_err, arith, >>=-eq-ok, reject_if-eq-ok, map_err-eq-ok,
}
use vor_commander.Protocol
use vor_commander.Protocol.{ActionRequest, PolicyDecision}
use vor_commander.Policy.Engine.{evaluate}
use vor_commander.Approval
use vor_commander.Approval.{SignedApproval, ApprovalVerifier}
use vor_commander.Audit.Types.{AuditEvent, AuditRecord, AuditError, Row, Formats}
use vor_commander.Audit.Table.{Key}
use vor_commander.Audit.Store.{
  Ledger, Fault, no_fault, lock_fault, insert_fault, file_fault, commit_fault, release_fault,
  append, append_after, write_prepared, has_outcome_for,
}
use vor_commander.Audit.Recovery.{ExecutionRecoveryState, claim_approval_consumed}
use vor_commander.Audit.Recovery.OneShot.{
  IsConsumed, claim-IsConsumed, claim_true-IsConsumed, set_state-IsConsumed, IsConsumed-claim_true,
}
use vor_commander.Core.{
  Outside, Broker, CoreError, approval_not_prepared, audit, protocol, approval, Authorization,
  ExecutionAuthorization, key_of, check_approval, claim, and_then, claimed, log_consumption,
  consume_approval_at, authorize_at, append_approval_event, audit_outcome_at,
  set_execution_recovery_state, write_authorization,
}

write_prepared-consumptions :
    (x : Formats) (f : Fault) (l : Ledger) (m : Result AuditError (AuditRecord × Row × _))
    → (write_prepared x f l m).0.disk.consumptions ≡ l.disk.consumptions
write_prepared-consumptions x f l (err e) = refl
write_prepared-consumptions x no_fault l (ok (a, b, c)) = refl
write_prepared-consumptions x lock_fault l (ok (a, b, c)) = refl
write_prepared-consumptions x insert_fault l (ok (a, b, c)) = refl
write_prepared-consumptions x file_fault l (ok (a, b, c)) = refl
write_prepared-consumptions x commit_fault l (ok (a, b, c)) = refl
write_prepared-consumptions x release_fault l (ok (a, b, c)) = refl

append_after-consumptions :
    (x : Formats) (f : Fault) (l : Ledger) (event : AuditEvent) (m : Result AuditError _)
    → (append_after x f l event m).0.disk.consumptions ≡ l.disk.consumptions
append_after-consumptions x f l event (err e) = refl
append_after-consumptions x f l event (ok (n, p)) = write_prepared-consumptions x f _ _

append-consumptions :
    (x : Formats) (f : Fault) (l : Ledger) (event : AuditEvent)
    → (append x f l event).0.disk.consumptions ≡ l.disk.consumptions
unfolding append
append-consumptions x no_fault l event = append_after-consumptions x no_fault l event _
append-consumptions x lock_fault l event = refl
append-consumptions x insert_fault l event = append_after-consumptions x insert_fault l event _
append-consumptions x file_fault l event = append_after-consumptions x file_fault l event _
append-consumptions x commit_fault l event = append_after-consumptions x commit_fault l event _
append-consumptions x release_fault l event = append_after-consumptions x release_fault l event _

-- one call of the broker, as its clients make it
pub data Call : Type 0 where
  authorize : Fault → ActionRequest → ℕ → Call
  consume : Fault → Fault → ActionRequest → SignedApproval → ApprovalVerifier → ℕ → Call
  outcome : Fault → Authorization → String → ℕ → Call
  set_state : Authorization → ExecutionRecoveryState → ℕ → Call

ok-injective {ℓ κ} :
    {E : Type ℓ} {A : Type κ} {a b : A} → ◌≡◌ {A = Result E A} (ok a) (ok b) → a ≡ b
ok-injective h = ground (arith, h)

module _ (o : Outside) where
  unfoldable pub run_call : Call → Broker → Broker
  run_call (authorize f request now) b = (authorize_at o f b request now).0
  run_call (consume f g request approved verifier now) b =
      (consume_approval_at o f g b request approved verifier now).0
  run_call (outcome f authorization text now) b = (audit_outcome_at o f b authorization text now).0
  run_call (set_state authorization state now) b =
      (set_execution_recovery_state o b authorization state now).0

  unfoldable pub run_calls : List Call → Broker → Broker
  run_calls [] b = b
  run_calls (c ∷ cs) b = run_calls cs (run_call c b)

  append-IsConsumed :
      (k : Key) (f : Fault) (l : Ledger) (event : AuditEvent)
      → IsConsumed k l.disk
      → IsConsumed k (append o.formats f l event).0.disk
  unfolding IsConsumed
  append-IsConsumed k f l event h = rw (append-consumptions o.formats f l event) h

  -- `?` of the broker, where both parts keep what is consumed
  and_then-IsConsumed {ℓ κ} :
      {A : Type ℓ} {B : Type κ} (k : Key) (m : Broker × Result CoreError A)
      (next : Broker → A → Broker × Result CoreError B)
      → IsConsumed k m.0.ledger.disk
      → ((b : Broker) (a : A) → IsConsumed k b.ledger.disk → IsConsumed k (next b a).0.ledger.disk)
      → IsConsumed k (and_then o m next).0.ledger.disk
  unfolding and_then
  and_then-IsConsumed k (b, ok a) next h keep = keep b a h
  and_then-IsConsumed k (b, err e) next h keep = h

  and_then-eq-ok {ℓ κ} :
      {A : Type ℓ} {B : Type κ} (m : Broker × Result CoreError A)
      (next : Broker → A → Broker × Result CoreError B) {c : B}
      → (and_then o m next).1 ≡ ok c
      → (a : A) × (m.1 ≡ ok a) × (and_then o m next ≡ next m.0 a)
  unfolding and_then
  and_then-eq-ok (b, ok a) next h = (a, refl, refl)
  and_then-eq-ok (b, err e) next h = cc

  write-IsConsumed :
      (k : Key) (f : Fault) (b : Broker) (request : ActionRequest) (now : ℕ)
      (m : Result CoreError PolicyDecision)
      → IsConsumed k b.ledger.disk
      → IsConsumed k (write_authorization o f b request now m).0.ledger.disk
  write-IsConsumed k f b request now (err e) h = h
  write-IsConsumed k f b request now (ok d) h = append-IsConsumed k f b.ledger _ h

  event-IsConsumed :
      (k : Key) (f : Fault) (b : Broker) (request : ActionRequest) (actor text : String) (now : ℕ)
      → IsConsumed k b.ledger.disk
      → IsConsumed k (append_approval_event o f b request actor text now).0.ledger.disk
  unfolding append_approval_event
  event-IsConsumed k f b request actor text now h = append-IsConsumed k f b.ledger _ h

  log-IsConsumed :
      (k : Key) (f g : Fault) (b : Broker) (request : ActionRequest) (approved : SignedApproval)
      (decision : PolicyDecision) (now : ℕ)
      → IsConsumed k b.ledger.disk
      → IsConsumed k (log_consumption o f g b request approved decision now).0.ledger.disk
  unfolding log_consumption
  log-IsConsumed k f g b request approved decision now h =
      and_then-IsConsumed k _ _ (event-IsConsumed k f b request _ _ now h) (λ b₁ _ h₁.
        and_then-IsConsumed k _ _ (event-IsConsumed k g b₁ request _ _ now h₁) (λ b₂ _ h₂. h₂))

  core_claim-IsConsumed :
      (k : Key) (b : Broker) (request : ActionRequest) (now : ℕ)
      → IsConsumed k b.ledger.disk
      → IsConsumed k (claim o b request now).0.ledger.disk
  unfolding claim
  core_claim-IsConsumed k b request now h = claim-IsConsumed k (key_of request) now b.ledger.disk h

  consume-IsConsumed :
      (k : Key) (f g : Fault) (b : Broker) (request : ActionRequest) (approved : SignedApproval)
      (verifier : ApprovalVerifier) (now : ℕ)
      → IsConsumed k b.ledger.disk
      → IsConsumed k (consume_approval_at o f g b request approved verifier now).0.ledger.disk
  unfolding consume_approval_at
  consume-IsConsumed k f g b request approved verifier now h =
      and_then-IsConsumed k _ _ h (λ b₀ d h₀.
        and_then-IsConsumed k _ _ (core_claim-IsConsumed k b₀ request now h₀)
          (λ b₁ _ h₁. log-IsConsumed k f g b₁ request approved d now h₁))

  pub call-IsConsumed :
      (k : Key) (c : Call) (b : Broker)
      → IsConsumed k b.ledger.disk
      → IsConsumed k (run_call c b).ledger.disk
  unfolding run_call authorize_at audit_outcome_at set_execution_recovery_state
  call-IsConsumed k (authorize f request now) b h = write-IsConsumed k f b request now _ h
  call-IsConsumed k (consume f g request approved verifier now) b h =
      consume-IsConsumed k f g b request approved verifier now h
  call-IsConsumed k (outcome f authorization text now) b h = append-IsConsumed k f b.ledger _ h
  call-IsConsumed k (set_state authorization state now) b h =
      set_state-IsConsumed k (key_of authorization.request) state now b.ledger.disk h

  calls-IsConsumed :
      (k : Key) (cs : List Call) (b : Broker)
      → IsConsumed k b.ledger.disk
      → IsConsumed k (run_calls cs b).ledger.disk
  unfolding run_calls
  calls-IsConsumed k [] b h = h
  calls-IsConsumed k (c ∷ cs) b h = calls-IsConsumed k cs _ (call-IsConsumed k c b h)

  claimed-eq-ok : (r : Result AuditError Bool) → claimed o r ≡ ok tt → r ≡ ok true
  claimed-eq-ok (ok true) h = refl
  claimed-eq-ok (ok false) h = cc
  claimed-eq-ok (err e) h = cc

  -- What a successful consumption has passed, and the claim it has made.
  consume-eq-ok :
      (f g : Fault) (b : Broker) (request : ActionRequest) (approved : SignedApproval)
      (verifier : ApprovalVerifier) (now : ℕ) {a : ExecutionAuthorization}
      → (consume_approval_at o f g b request approved verifier now).1 ≡ ok a
      → (d : PolicyDecision) × (check_approval o b request approved verifier now ≡ ok d)
        × ((claim_approval_consumed (key_of request) now b.ledger.disk).1 ≡ ok true)
        × (consume_approval_at o f g b request approved verifier now
            ≡ log_consumption o f g (claim o b request now).0 request approved d now)
  unfolding consume_approval_at claim
  consume-eq-ok f g b request approved verifier now h =
      let (d, checked, e) = and_then-eq-ok _ _ h in
      let (u, made, e') = and_then-eq-ok (claim o b request now) _ (ap (λ r. r.1) (sym e) ∙ h) in
      (d, checked, claimed-eq-ok _ made, e ∙ e')

  -- the answer that follows from what was asked and from the policy's decision
  abbrev pub execution_for :
      ActionRequest → SignedApproval → PolicyDecision → ExecutionAuthorization
  execution_for request approved decision = record {
    authorization = record { request = request; decision = decision };
    approver_id = approved.approver_id;
    approval_expires_at_unix_ms = approved.challenge.expires_at_unix_ms;
  }

  log-eq-ok :
      (f g : Fault) (b : Broker) (request : ActionRequest) (approved : SignedApproval)
      (decision : PolicyDecision) (now : ℕ) (a : ExecutionAuthorization)
      → (log_consumption o f g b request approved decision now).1 ≡ ok a
      → a ≡ execution_for request approved decision
  unfolding log_consumption
  log-eq-ok f g b request approved decision now a h =
      let (_, _, e) =
        and_then-eq-ok
          (append_approval_event o f b request approved.approver_id "approval_verified" now) _ h in
      let (_, _, e') =
        and_then-eq-ok
          (append_approval_event o g _ request request.envelope.actor_id "approval_consumed" now) _
          (ap (λ r. r.1) (sym e) ∙ h) in
      ok-injective (sym h ∙ ap (λ r. r.1) e ∙ ap (λ r. r.1) e')

  -- An approval that the broker has consumed had passed every check: the request verifies, an
  -- `approval` outcome for it is in the ledger, and the verifier accepts the signed approval for the
  -- policy's present decision. What the broker returns is this very request with this very decision,
  -- under the approver and the expiry of the signed approval.
  pub consume_checked :
      (f g : Fault) (b : Broker) (request : ActionRequest) (approved : SignedApproval)
      (verifier : ApprovalVerifier) (now : ℕ) (a : ExecutionAuthorization)
      → (consume_approval_at o f g b request approved verifier now).1 ≡ ok a
      → (Protocol.verify o.hashing request now ≡ ok tt)
        × (has_outcome_for o.formats b.ledger.disk.rows (key_of request) "approval" ≡ ok true)
        × (Approval.verify o.ed25519 o.hashing verifier request
              (evaluate o.externals b.policy request)
              approved
              now
            ≡ ok tt)
        × (a ≡ execution_for request approved (evaluate o.externals b.policy request))
  unfolding check_approval
  consume_checked f g b request approved verifier now a h =
      let (d, checked, _, e) = consume-eq-ok f g b request approved verifier now h in
      let (_, p, h1) =
        >>=-eq-ok (map_err protocol (Protocol.verify o.hashing request now)) _ checked in
      let (prepared, q, h2) =
        >>=-eq-ok
          (map_err audit (has_outcome_for o.formats b.ledger.disk.rows (key_of request) "approval"))
          _ h1 in
      let (was, h3) = reject_if-eq-ok (not prepared) approval_not_prepared _ h2 in
      let (_, r, h4) =
        >>=-eq-ok
          (map_err approval (
            Approval.verify o.ed25519 o.hashing verifier request
              (evaluate o.externals b.policy request) approved now))
          _ h3 in
      (
        map_err-eq-ok protocol _ p,
        map_err-eq-ok audit _ q ∙ ap ok (ground (arith, was)),
        map_err-eq-ok approval _ r,
        log-eq-ok f g _ request approved d now a (ap (λ r. r.1) (sym e) ∙ h)
            ∙ ap (execution_for request approved) (sym (ok-injective h4)),
      )

  -- After a successful consumption the request's key is consumed.
  pub consume-ok-IsConsumed :
      (f g : Fault) (b : Broker) (request : ActionRequest) (approved : SignedApproval)
      (verifier : ApprovalVerifier) (now : ℕ) (a : ExecutionAuthorization)
      → (consume_approval_at o f g b request approved verifier now).1 ≡ ok a
      → IsConsumed
          (key_of request)
          (consume_approval_at o f g b request approved verifier now).0.ledger.disk
  unfolding claim
  consume-ok-IsConsumed f g b request approved verifier now a h =
      let (d, _, made, e) = consume-eq-ok f g b request approved verifier now h in
      rw e (
        log-IsConsumed (key_of request) f g _ request approved d now
          (claim_true-IsConsumed (key_of request) now b.ledger.disk made))

  -- No consumption succeeds where the request's key is consumed already.
  pub IsConsumed-consume :
      (f g : Fault) (b : Broker) (request : ActionRequest) (approved : SignedApproval)
      (verifier : ApprovalVerifier) (now : ℕ) (a : ExecutionAuthorization)
      → IsConsumed (key_of request) b.ledger.disk
      → (consume_approval_at o f g b request approved verifier now).1 ≢ ok a
  IsConsumed-consume f g b request approved verifier now a consumed h =
      let (_, _, made, _) = consume-eq-ok f g b request approved verifier now h in
      IsConsumed-claim_true (key_of request) now b.ledger.disk consumed made

  -- What is to be executed is the request that was consumed.
  pub consume-request :
      (f g : Fault) (b : Broker) (request : ActionRequest) (approved : SignedApproval)
      (verifier : ApprovalVerifier) (now : ℕ) (a : ExecutionAuthorization)
      → (consume_approval_at o f g b request approved verifier now).1 ≡ ok a
      → a.authorization.request ≡ request
  consume-request f g b request approved verifier now a h =
      let (d, _, _, e) = consume-eq-ok f g b request approved verifier now h in
      ap (λ x. x.authorization.request)
        (log-eq-ok f g _ request approved d now a (ap (λ r. r.1) (sym e) ∙ h))

  -- Once a request's approval is consumed, no sequence of calls of the broker, whatever fails in
  -- them, lets a request with the same id and digest be consumed again.
  pub consume_once :
      (f g f' g' : Fault) (b : Broker) (request again : ActionRequest)
      (approved other : SignedApproval) (verifier verifier' : ApprovalVerifier) (now later : ℕ)
      (cs : List Call) (a a' : ExecutionAuthorization)
      → (consume_approval_at o f g b request approved verifier now).1 ≡ ok a
      → key_of again ≡ key_of request
      → (consume_approval_at o f' g'
          (run_calls cs (consume_approval_at o f g b request approved verifier now).0)
          again
          other
          verifier'
          later).1
        ≢ ok a'
  consume_once f g f' g' b request again approved other verifier verifier' now later cs a a' h same
        again_ok =
      IsConsumed-consume f' g' _ again other verifier' later a'
        (rw same (
          calls-IsConsumed (key_of request) cs _
            (consume-ok-IsConsumed f g b request approved verifier now a h)))
        again_ok
