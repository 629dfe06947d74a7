-- ===== src/Approval/Verify.antt =====
-- What `ApprovalVerifier::verify` accepts.
use vor_commander.Base.{
  ℕ, ◌≤◌, ◌<◌, ◌≡◌, ◌↔◌, refl, ap, Bool, true, false, not, String, Option, none, some, List, arith,
  ok, >>=-eq-ok, reject_if-eq-ok, map_err-eq-ok, eq_iff, ok_or, ok_or-eq-ok, ◌&&◌, map_err, ltb,
}
use vor_commander.Base.Text.{text_eq→≡, text_eq_refl}
use vor_commander.Base.Map.{get}
use vor_commander.Protocol
use vor_commander.Protocol.{ActionRequest, PolicyDecision, PolicyDecisionKind, Hashing}
use vor_commander.Approval.{
  ApprovalChallenge, SignedApproval, ApprovalVerifier, ApprovalError, TrustedApprover, Ed25519,
  ApproverAuthority, rank, required_for, approval_message, ensure_decision_matches, is_approval,
  same_capability, verify_challenge_binding, check_approver, verify, protocol, is_foreign,
  is_unscoped,
}

same_capability_sound : (a b : Option String) → same_capability a b ≡ true → a ≡ b
same_capability_sound none none h = refl
same_capability_sound none (some t) h = cc
same_capability_sound (some s) none h = cc
same_capability_sound (some s) (some t) h = ap some ((eq_iff s t).0 h)

same_capability_refl : (a : Option String) → same_capability a a ≡ true
same_capability_refl none = refl
same_capability_refl (some s) = (eq_iff s s).1 refl

-- The challenge is bound to the request and to the decision, and is in time.
pub record IsBound (request : ActionRequest) (decision : PolicyDecision) (c : ApprovalChallenge)
    (now : ℕ) : Type 0 where
  pub request_id : c.request_id ≡ request.envelope.request_id
  pub digest : c.envelope_digest ≡ request.envelope_digest
  pub policy_id : c.policy_id ≡ decision.policy_id
  pub capability : c.required_capability ≡ decision.required_capability
  pub in_time : now < c.expires_at_unix_ms
  pub within_request : c.expires_at_unix_ms ≤ request.envelope.expires_at_unix_ms

binding_sound :
    (request : ActionRequest) (decision : PolicyDecision) (c : ApprovalChallenge) (now : ℕ)
    → verify_challenge_binding request decision c now ≡ ok tt
    → IsBound request decision c now
unfolding verify_challenge_binding
binding_sound request decision c now h = ground (
  arith,
  eq_iff c.request_id request.envelope.request_id,
  text_eq→≡ c.envelope_digest request.envelope_digest,
  eq_iff c.policy_id decision.policy_id,
  same_capability_sound c.required_capability decision.required_capability,
)

binding_complete :
    (request : ActionRequest) (decision : PolicyDecision) (c : ApprovalChallenge) (now : ℕ)
    → IsBound request decision c now
    → verify_challenge_binding request decision c now ≡ ok tt
unfolding verify_challenge_binding
binding_complete request decision c now v = ground (
  arith,
  eq_iff c.request_id request.envelope.request_id,
  v.digest,
  text_eq_refl request.envelope_digest,
  eq_iff c.policy_id decision.policy_id,
  v.capability,
  same_capability_refl decision.required_capability,
)

-- The decision is the one on this request.
pub record IsDecisionFor (request : ActionRequest) (decision : PolicyDecision) : Type 0 where
  pub request_id : decision.request_id ≡ request.envelope.request_id
  pub digest : decision.envelope_digest ≡ request.envelope_digest

pub decision_sound :
    (request : ActionRequest) (decision : PolicyDecision)
    → ensure_decision_matches request decision ≡ ok tt
    → IsDecisionFor request decision
unfolding ensure_decision_matches
decision_sound request decision h = ground (
  arith,
  eq_iff decision.request_id request.envelope.request_id,
  text_eq→≡ decision.envelope_digest request.envelope_digest,
)

pub decision_complete :
    (request : ActionRequest) (decision : PolicyDecision)
    → IsDecisionFor request decision
    → ensure_decision_matches request decision ≡ ok tt
unfolding ensure_decision_matches
decision_complete request decision v = ground (
  arith,
  eq_iff decision.request_id request.envelope.request_id,
  v.digest,
  text_eq_refl request.envelope_digest,
)

-- An approver without an organization passes where none is required, any other for its own only.
abbrev pub IsInScope : Bool → Option String → String → Type 0
IsInScope scoped none organization_id = scoped ≡ false
IsInScope scoped (some o) organization_id = o ≡ organization_id

-- A registered approver whose signature counts for the request.
pub record IsSigner (e : Ed25519) (v : ApprovalVerifier) (a : TrustedApprover)
    (request : ActionRequest) (decision : PolicyDecision) (approval : SignedApproval) : Type 0 where
  pub active : a.revoked ≡ false
  pub required : ApproverAuthority
  pub asked : required_for decision.required_capability ≡ ok required
  pub authority : rank required ≤ rank a.authority
  pub in_scope :
      IsInScope v.require_organization_scope a.organization_id request.envelope.organization_id
  pub message : List ℕ
  pub signed : approval_message approval.challenge approval.approver_id ≡ ok message
  pub signature : e.verify a.key message approval.signature ≡ true

module _ (e : Ed25519) where
  scope_sound :
      (scoped : Bool) (o : Option String) (organization_id : String)
      → (scoped && is_unscoped e o) ≡ false
      → is_foreign e o organization_id ≡ false
      → IsInScope scoped o organization_id
  scope_sound scoped none organization_id h k = ground arith
  scope_sound scoped (some o) organization_id h k = (eq_iff o organization_id).0 (ground arith)

  scope_complete :
      (scoped : Bool) (o : Option String) (organization_id : String)
      → IsInScope scoped o organization_id
      → ((scoped && is_unscoped e o) ≡ false) × (is_foreign e o organization_id ≡ false)
  scope_complete scoped none organization_id h = (ground arith, refl)
  scope_complete scoped (some o) organization_id h =
      (ground arith, ground (arith, (eq_iff o organization_id).1 h))

  module _ (v : ApprovalVerifier) (a : TrustedApprover) (request : ActionRequest)
      (decision : PolicyDecision) (approval : SignedApproval) where
    IsSigner-sound :
        check_approver e v a request decision approval ≡ ok tt
        → IsSigner e v a request decision approval
    unfolding check_approver
    IsSigner-sound h =
        let (r, h₁) = reject_if-eq-ok a.revoked _ _ h in
        let (required, er, h₂) = >>=-eq-ok (required_for decision.required_capability) _ h₁ in
        let (au, h₃) = reject_if-eq-ok (ltb (rank a.authority) (rank required)) _ _ h₂ in
        let (sc, h₄) =
          reject_if-eq-ok (v.require_organization_scope && is_unscoped e a.organization_id) _ _
            h₃ in
        let (fo, h₅) =
          reject_if-eq-ok (is_foreign e a.organization_id request.envelope.organization_id) _ _
            h₄ in
        let (m, em, h₆) =
          >>=-eq-ok (approval_message approval.challenge approval.approver_id) _ h₅ in
        record {
          active = r;
          required = required;
          asked = er;
          authority = ground (arith, au);
          in_scope =
              scope_sound v.require_organization_scope a.organization_id
                request.envelope.organization_id sc fo;
          message = m;
          signed = em;
          signature = ground (arith, h₆);
        }

    pub signer_complete :
        IsSigner e v a request decision approval
        → check_approver e v a request decision approval ≡ ok tt
    unfolding check_approver
    signer_complete s =
        let (sc, fo) =
          scope_complete v.require_organization_scope a.organization_id
            request.envelope.organization_id s.in_scope in
        rw (s.active, s.asked) (ground (arith, s.authority, sc, fo, s.signed, s.signature))

-- All that `verify` asks for.
pub record IsApproved (e : Ed25519) (h : Hashing) (v : ApprovalVerifier) (request : ActionRequest)
    (decision : PolicyDecision) (approval : SignedApproval) (now : ℕ) : Type 0 where
  pub verified : Protocol.verify h request now ≡ ok tt
  pub decided : IsDecisionFor request decision
  pub needed : decision.kind ≡ PolicyDecisionKind.approval
  pub bound : IsBound request decision approval.challenge now
  pub approver : TrustedApprover
  pub registered : get approval.approver_id v.approvers ≡ some approver
  pub signer : IsSigner e v approver request decision approval

module _ (e : Ed25519) (h : Hashing) (v : ApprovalVerifier) (request : ActionRequest)
    (decision : PolicyDecision) (approval : SignedApproval) (now : ℕ) where
  verify_sound :
      verify e h v request decision approval now ≡ ok tt
      → IsApproved e h v request decision approval now
  unfolding verify
  verify_sound k =
      let (_, p, k₁) = >>=-eq-ok (map_err protocol (Protocol.verify h request now)) _ k in
      let (_, d, k₂) = >>=-eq-ok (ensure_decision_matches request decision) _ k₁ in
      let (n, k₃) = reject_if-eq-ok (not (is_approval decision.kind)) _ _ k₂ in
      let (_, b, k₄) =
        >>=-eq-ok (verify_challenge_binding request decision approval.challenge now) _ k₃ in
      let (a, r, k₅) =
        >>=-eq-ok (ok_or (get approval.approver_id v.approvers) ApprovalError.unknown_approver) _
          k₄ in
      record {
        verified = map_err-eq-ok protocol (Protocol.verify h request now) p;
        decided = decision_sound request decision d;
        needed = ground (arith, n);
        bound = binding_sound request decision approval.challenge now b;
        approver = a;
        registered =
            ok_or-eq-ok (get approval.approver_id v.approvers) ApprovalError.unknown_approver r;
        signer = IsSigner-sound e v a request decision approval k₅;
      }

  verify_complete :
      IsApproved e h v request decision approval now
      → verify e h v request decision approval now ≡ ok tt
  unfolding verify
  verify_complete s = ground (
    arith,
    s.verified,
    decision_complete request decision s.decided,
    s.needed,
    binding_complete request decision approval.challenge now s.bound,
    s.registered,
    signer_complete e v s.approver request decision approval s.signer,
  )

  -- An approval is accepted exactly when the request verifies, the decision is the one on this
  -- request and needs a signature, the challenge is bound to both and in time, and its approver is
  -- registered, not revoked, of sufficient authority, in scope of the organization, and has signed
  -- the message of this challenge.
  pub approval_verify_iff :
      (verify e h v request decision approval now ≡ ok tt)
      ↔ IsApproved e h v request decision approval now
  approval_verify_iff = (verify_sound, verify_complete)
