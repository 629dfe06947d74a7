-- ===== src/Core.antt =====
-- `Broker` of crates/vor-core/src/lib.rs: it authorizes a request by the policy and the rate limit,
-- consumes an approval once, and writes what it decides to the ledger. `Externals`, `Formats`,
-- `Hashing` and `Ed25519` are what its parts take from outside; each call of the ledger that writes
-- comes with the fault it meets.
pub mod Consume
pub mod Limit
use vor_commander.Base.{
  ℕ, String, ◌+◌, ◌-◌, ◌^◌, Bool, true, false, not, Option, none, some, str_eq, ltb, leb, ◌&&◌,
  ◌||◌, if◌then◌else◌, Result, ok, err, reject_if, map_err, ◌>>=◌, ◌>>◌,
}
use vor_commander.Json.{as_u64}
use vor_commander.Protocol
use vor_commander.Protocol.{
  Digest32, ActionRequest, PolicyDecision, PolicyDecisionKind, ProtocolError, Hashing,
}
use vor_commander.Policy.Config.{Externals, PolicyEngine}
use vor_commander.Policy.Engine.{evaluate, parameter}
use vor_commander.Approval
use vor_commander.Approval.{Ed25519, SignedApproval, ApprovalVerifier, ApprovalError}
use vor_commander.Audit.Types.{AuditEvent, AuditRecord, AuditError, Formats}
use vor_commander.Audit.Table.{Key}
use vor_commander.Audit.Store.{
  Disk, Ledger, Fault, append, has_outcome_for, count_policy_auto_writes_since,
  sum_policy_auto_write_bytes_since,
}
use vor_commander.Audit.Recovery
use vor_commander.Audit.Recovery.{ExecutionRecoveryState, claim_approval_consumed}

pub record Authorization : Type 0 where
  pub request : ActionRequest
  pub decision : PolicyDecision

pub record ExecutionAuthorization : Type 0 where
  pub authorization : Authorization
  pub approver_id : String
  pub approval_expires_at_unix_ms : ℕ

pub record Broker : Type 0 where
  pub policy : PolicyEngine
  pub ledger : Ledger

pub data CoreError : Type 0 where
  protocol : ProtocolError → CoreError
  approval : ApprovalError → CoreError
  approval_not_prepared approval_already_consumed : CoreError
  audit : AuditError → CoreError
  clock : CoreError

pub record Outside : Type 0 where
  pub externals : Externals
  pub formats : Formats
  pub hashing : Hashing
  pub ed25519 : Ed25519

abbrev pub is_auto : PolicyDecisionKind → Bool
is_auto PolicyDecisionKind.auto = true
is_auto _ = false

abbrev pub outcome_of : PolicyDecisionKind → String
outcome_of PolicyDecisionKind.auto = "auto"
outcome_of PolicyDecisionKind.approval = "approval"
outcome_of PolicyDecisionKind.deny = "deny"

abbrev pub authority_of : PolicyDecision → String
authority_of decision =
    if str_eq decision.reason_code "terminal_safe_list"
    then "safe-list"
    else if is_auto decision.kind
    then "policy"
    else "signature"

abbrev pub approval_by_kind : PolicyDecisionKind → String
approval_by_kind PolicyDecisionKind.auto = "not-required"
approval_by_kind PolicyDecisionKind.approval = "required"
approval_by_kind PolicyDecisionKind.deny = "denied"

abbrev pub approval_of : PolicyDecision → String
approval_of decision =
    if str_eq decision.reason_code "terminal_safe_list"
    then "safe-list"
    else approval_by_kind decision.kind

abbrev pub approval_of_outcome : PolicyDecision → String
approval_of_outcome decision =
    if str_eq decision.reason_code "terminal_safe_list"
    then "safe-list"
    else if is_auto decision.kind
    then "not-required"
    else "signature"

-- `u64::saturating_add`
abbrev pub saturating_add : ℕ → ℕ → ℕ
saturating_add a b = if leb (2 ^ 64) (a + b) then 2 ^ 64 - 1 else a + b

abbrev pub or_zero : Option ℕ → ℕ
or_zero none = 0
or_zero (some n) = n

unfoldable pub content_bytes : ActionRequest → ℕ
content_bytes request = or_zero (parameter request "content_bytes" as_u64)

abbrev pub key_of : ActionRequest → Key
key_of request = record {
  request_id = request.envelope.request_id;
  digest = request.envelope_digest;
}

-- The event on a request; what differs between the writers comes as arguments.
abbrev pub event_of :
    PolicyEngine → ActionRequest → ℕ → String → String → String → String → String → ℕ → AuditEvent
event_of policy request now actor_id outcome authority approved rule bytes = record {
  timestamp_unix_ms = now;
  organization_id = request.envelope.organization_id;
  actor_id = actor_id;
  device_id = request.envelope.device_id;
  request_id = request.envelope.request_id;
  action = request.envelope.action;
  target = request.envelope.target;
  outcome = outcome;
  envelope_digest = request.envelope_digest;
  authority = authority;
  approval = approved;
  policy_rule = rule;
  policy_hash = policy.policy_hash;
  content_bytes = bytes;
}

abbrev pub done : Result AuditError AuditRecord → Result CoreError (Unit {0})
done (ok r) = ok tt
done (err e) = err (audit e)

-- `self.ledger.append(…)?; Ok(a)`
abbrev pub answer {ℓ} :
    {A : Type ℓ}
    → A
    → Ledger × Result AuditError AuditRecord
    → PolicyEngine
    → Broker × Result CoreError A
answer a (l, r) policy = (record { policy = policy; ledger = l }, (do done r; ok a))

module _ (o : Outside) where
  abbrev pub limited : Broker → ℕ → ℕ → ℕ → Bool
  limited b count bytes size =
      leb b.policy.config.auto_write.max_files_per_minute count
      || ltb b.policy.config.auto_write.max_bytes_per_minute (saturating_add bytes size)

  abbrev pub demoted : PolicyDecision → PolicyDecision
  demoted decision = record decision {
    kind = PolicyDecisionKind.approval;
    reason_code = "auto_write_rate_limited";
  }

  -- an automatic write, which the two limits may turn into one that wants an approval
  unfoldable pub limit_write :
      Broker → ActionRequest → ℕ → PolicyDecision → Result CoreError PolicyDecision
  limit_write b request since decision = do
    count ← map_err audit (
        count_policy_auto_writes_since o.formats b.ledger.disk.rows request.envelope.actor_id
          request.envelope.device_id since)
    bytes ← map_err audit (
        sum_policy_auto_write_bytes_since o.formats b.ledger.disk.rows request.envelope.actor_id
          request.envelope.device_id since)
    ok (if limited b count bytes (content_bytes request) then demoted decision else decision)

  unfoldable pub rate_limit :
      Broker → ActionRequest → ℕ → PolicyDecision → Result CoreError PolicyDecision
  rate_limit b request now_unix_ms decision =
      if is_auto decision.kind && str_eq request.envelope.action "filesystem.write"
      then limit_write b request (now_unix_ms - 60000) decision
      else ok decision

  abbrev pub authorization_event : Broker → ActionRequest → ℕ → PolicyDecision → AuditEvent
  authorization_event b request now decision =
      event_of b.policy request now request.envelope.actor_id (outcome_of decision.kind)
        (authority_of decision) (approval_of decision) decision.reason_code (content_bytes request)

  abbrev pub write_authorization :
      Fault
      → Broker
      → ActionRequest
      → ℕ
      → Result CoreError PolicyDecision
      → Broker × Result CoreError Authorization
  write_authorization fault b request now (err e) = (b, err e)
  write_authorization fault b request now (ok decision) =
      answer (record { request = request; decision = decision })
        (append o.formats fault b.ledger (authorization_event b request now decision)) b.policy

  unfoldable pub decide : Broker → ActionRequest → ℕ → Result CoreError PolicyDecision
  decide b request now_unix_ms = do
    map_err protocol (Protocol.verify o.hashing request now_unix_ms)
    rate_limit b request now_unix_ms (evaluate o.externals b.policy request)

  unfoldable pub authorize_at :
      Fault → Broker → ActionRequest → ℕ → Broker × Result CoreError Authorization
  authorize_at fault b request now_unix_ms =
      write_authorization fault b request now_unix_ms (decide b request now_unix_ms)

  unfoldable pub append_approval_event :
      Fault → Broker → ActionRequest → String → String → ℕ → Broker × Result CoreError (Unit {0})
  append_approval_event fault b request actor_id outcome now =
      answer tt
        (append o.formats fault b.ledger (
          event_of b.policy request now actor_id outcome "signature" "signature"
            (evaluate o.externals b.policy request).reason_code 0))
        b.policy

  -- what `consume_approval_at` checks before it claims
  unfoldable pub check_approval :
      Broker
      → ActionRequest
      → SignedApproval
      → ApprovalVerifier
      → ℕ
      → Result CoreError PolicyDecision
  check_approval b request approved verifier now_unix_ms = do
    map_err protocol (Protocol.verify o.hashing request now_unix_ms)
    let decision = evaluate o.externals b.policy request
    prepared ←
        map_err audit (has_outcome_for o.formats b.ledger.disk.rows (key_of request) "approval")
    reject_if (not prepared) approval_not_prepared
    map_err approval
        (Approval.verify o.ed25519 o.hashing verifier request decision approved now_unix_ms)
    ok decision

  abbrev pub claimed : Result AuditError Bool → Result CoreError (Unit {0})
  claimed (err e) = err (audit e)
  claimed (ok true) = ok tt
  claimed (ok false) = err approval_already_consumed

  unfoldable pub and_then {ℓ κ} :
      {A : Type ℓ} {B : Type κ}
      → Broker × Result CoreError A
      → (Broker → A → Broker × Result CoreError B)
      → Broker × Result CoreError B
  and_then (b, err e) next = (b, err e)
  and_then (b, ok a) next = next b a

  unfoldable pub claim : Broker → ActionRequest → ℕ → Broker × Result CoreError (Unit {0})
  claim b request now =
      let (disk, r) = claim_approval_consumed (key_of request) now b.ledger.disk in
      (record { policy = b.policy; ledger = record b.ledger { disk = disk } }, claimed r)

  -- the two events that follow the claim, and the answer
  unfoldable pub log_consumption :
      Fault
      → Fault
      → Broker
      → ActionRequest
      → SignedApproval
      → PolicyDecision
      → ℕ
      → Broker × Result CoreError ExecutionAuthorization
  log_consumption fault second b request approved decision now =
      and_then (append_approval_event fault b request approved.approver_id "approval_verified" now)
        (λ b₁ _.
          and_then
            (append_approval_event second b₁ request request.envelope.actor_id "approval_consumed"
              now)
            (λ b₂ _. (
              b₂,
              ok (record {
                authorization = record { request = request; decision = decision };
                approver_id = approved.approver_id;
                approval_expires_at_unix_ms = approved.challenge.expires_at_unix_ms;
              }),
            )))

  unfoldable pub consume_approval_at :
      Fault
      → Fault
      → Broker
      → ActionRequest
      → SignedApproval
      → ApprovalVerifier
      → ℕ
      → Broker × Result CoreError ExecutionAuthorization
  consume_approval_at fault second b request approved verifier now =
      and_then (b, check_approval b request approved verifier now)
        (λ b₀ decision.
          and_then (claim b₀ request now)
            (λ b₁ _. log_consumption fault second b₁ request approved decision now))

  unfoldable pub audit_outcome_at :
      Fault → Broker → Authorization → String → ℕ → Broker × Result CoreError (Unit {0})
  audit_outcome_at fault b authorization outcome now =
      answer tt
        (append o.formats fault b.ledger (
          event_of b.policy authorization.request now authorization.request.envelope.actor_id
            outcome (authority_of authorization.decision)
            (approval_of_outcome authorization.decision) authorization.decision.reason_code 0))
        b.policy

  unfoldable pub set_execution_recovery_state :
      Broker → Authorization → ExecutionRecoveryState → ℕ → Broker × Result CoreError (Unit {0})
  set_execution_recovery_state b authorization state now =
      let (disk, r) =
        Recovery.set_execution_recovery_state (key_of authorization.request) state now
          b.ledger.disk in
      (record { policy = b.policy; ledger = record b.ledger { disk = disk } }, map_err audit r)

  unfoldable pub execution_recovery_state :
      Broker → Key → Result CoreError (Option ExecutionRecoveryState)
  execution_recovery_state b k = map_err audit (Recovery.execution_recovery_state k b.ledger.disk)
