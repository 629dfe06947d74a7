-- ===== src/Approval/Registry.antt =====
-- What registering, revoking and rotating approvers does to later verifications.
use vor_commander.Base.{
  ℕ, ◌≡◌, ◌≢◌, sym, ap, true, false, String, Option, none, some, List, arith, ok, >>=-eq-ok, str_eq,
  eq_iff, ok_or, ok_or-eq-ok, if◌then◌else◌,
}
use vor_commander.Base.Map.{get, get-insert}
use vor_commander.Protocol.{ActionRequest, PolicyDecision, Hashing}
use vor_commander.Approval.{
  SignedApproval, ApprovalVerifier, ApprovalError, TrustedApprover, Ed25519, ApproverAuthority,
  validate_text, add_approver_for_organization, revoke_approver, verify, check_approver,
}
use vor_commander.Approval.Verify.{IsInScope, approval_verify_iff}
use mathlib.Core.Path.{subst}

module _ (e : Ed25519) (v : ApprovalVerifier) where
  pub get-add :
      (id : String) (key : List ℕ) (authority : ApproverAuthority) (o : Option String)
      {w : ApprovalVerifier}
      → add_approver_for_organization e v id key authority o ≡ ok w
      → (get id v.approvers ≡ none)
        × (get id w.approvers
            ≡ some
                (record { key = key; authority = authority; organization_id = o; revoked = false }))
        × (w.require_organization_scope ≡ v.require_organization_scope)
  unfolding add_approver_for_organization
  get-add id key authority o h = (
    ground (arith, h),
    ground (
      arith,
      h,
      eq_iff id id,
      get-insert id id
          (record { key = key; authority = authority; organization_id = o; revoked = false })
          v.approvers,
    ),
    ground (arith, h),
  )

  get-revoke :
      (id j : String) {w : ApprovalVerifier}
      → revoke_approver e v id ≡ ok w
      → (a : TrustedApprover) × (get id v.approvers ≡ some a)
        × (get j w.approvers
            ≡ (if str_eq id j then some (record a { revoked = true }) else get j v.approvers))
        × (w.require_organization_scope ≡ v.require_organization_scope)
  unfolding revoke_approver
  get-revoke id j h =
      let (_, _, h₁) = >>=-eq-ok (validate_text id) _ h in
      let (a, g, h₂) = >>=-eq-ok (ok_or (get id v.approvers) ApprovalError.unknown_approver) _ h₁ in
      (
        a,
        ok_or-eq-ok (get id v.approvers) ApprovalError.unknown_approver g,
        ground (arith, h₂, get-insert id j (record a { revoked = true }) v.approvers),
        ground (arith, h₂),
      )

  module _ (h : Hashing) (w : ApprovalVerifier) (id : String)
      (revoked : revoke_approver e v id ≡ ok w) (request : ActionRequest)
      (decision : PolicyDecision) (approval : SignedApproval) (now : ℕ) where
    -- After an approver is revoked, none of its approvals is accepted, whenever they were signed.
    pub revoked_never :
        approval.approver_id ≡ id → verify e h w request decision approval now ≢ ok tt
    revoked_never same k =
        let s = (approval_verify_iff e h w request decision approval now).0 k in
        let (a, _, g, _) = get-revoke id approval.approver_id revoked in
        ground (arith, s.registered, s.signer.active, g, eq_iff id approval.approver_id, same)

    -- Revoking one approver changes nothing for the approvals of another.
    pub verify-revoke_ne :
        approval.approver_id ≢ id
        → verify e h w request decision approval now ≡ verify e h v request decision approval now
    unfolding verify check_approver
    verify-revoke_ne other =
        let (a, _, g, scope) = get-revoke id approval.approver_id revoked in
        let same : get approval.approver_id w.approvers ≡ get approval.approver_id v.approvers =
          ground (arith, g, eq_iff id approval.approver_id, other) in
        simp (same, scope)

  -- An approver registered for one organization has no approval accepted on a request of another.
  pub foreign_never :
      (h : Hashing) (w : ApprovalVerifier) (id : String) (key : List ℕ)
      (authority : ApproverAuthority) (organization_id : String) (request : ActionRequest)
      (decision : PolicyDecision) (approval : SignedApproval) (now : ℕ)
      → add_approver_for_organization e v id key authority (some organization_id) ≡ ok w
      → approval.approver_id ≡ id
      → request.envelope.organization_id ≢ organization_id
      → verify e h w request decision approval now ≢ ok tt
  foreign_never h w id key authority organization_id request decision approval now added same other
        k =
      let s = (approval_verify_iff e h w request decision approval now).0 k in
      let (_, g, _) = get-add id key authority (some organization_id) added in
      let found : get approval.approver_id w.approvers ≡ get id w.approvers =
        ap (λ i. get i w.approvers) same in
      let org : s.approver.organization_id ≡ some organization_id =
        ground (arith, s.registered, found, g) in
      other (
        sym (
          subst (λ o. IsInScope w.require_organization_scope o request.envelope.organization_id) org
            s.signer.in_scope))
