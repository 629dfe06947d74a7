-- ===== src/Approval/RoundTrip.antt =====
-- Issue a challenge, sign it, register the signer: the approval verifies.
use vor_commander.Base.{
  ℕ, ◌≤◌, ◌<◌, ◌≡◌, refl, sym, true, false, not, String, Option, List, arith, ok, >>=-eq-ok,
  reject_if-eq-ok, map_err, ◌||◌, leb, ltb,
}
use mathlib.Core.Path.{subst}
use vor_commander.Protocol
use vor_commander.Protocol.{ActionRequest, PolicyDecision, PolicyDecisionKind, Hashing}
use vor_commander.Approval.{
  ApprovalChallenge, SignedApproval, ApprovalVerifier, ApprovalError, Ed25519, ApproverAuthority,
  rank, required_for, approval_message, ensure_decision_matches, is_approval, validate_text, issue,
  sign_approval, add_approver_for_organization, verify, protocol,
}
use vor_commander.Approval.Verify.{
  IsBound, IsDecisionFor, IsInScope, approval_verify_iff, decision_sound,
}
use vor_commander.Approval.Registry.{get-add}

-- What Ed25519 documents: a signature verifies under the key of its signer.
abbrev pub Verifies : Ed25519 → List ℕ → Type 0
Verifies e signing_key =
    (message : List ℕ)
    → e.verify (e.verifying_key signing_key) message (e.sign signing_key message) ≡ true

module _ (h : Hashing) (request : ActionRequest) (decision : PolicyDecision) (issued_at expires : ℕ)
    (nonce : List ℕ) {c : ApprovalChallenge}
    (issued : issue h request decision issued_at expires nonce ≡ ok c) where
  issue_sound :
      (now : ℕ)
      → now < expires
      → IsDecisionFor request decision
        × (decision.kind ≡ PolicyDecisionKind.approval)
        × IsBound request decision c now
  unfolding issue
  issue_sound now t =
      let (_, p, h₁) =
        >>=-eq-ok (map_err protocol (Protocol.verify h request issued_at)) _ issued in
      let (_, d, h₂) = >>=-eq-ok (ensure_decision_matches request decision) _ h₁ in
      let (k, h₃) =
        reject_if-eq-ok (not (is_approval decision.kind))
          ApprovalError.decision_does_not_require_approval _ h₂ in
      let (x, h₄) =
        reject_if-eq-ok (leb expires issued_at || ltb request.envelope.expires_at_unix_ms expires)
          ApprovalError.invalid_expiry _ h₃ in
      (decision_sound request decision d, ground (arith, k), ground (arith, x, h₄, t))

  -- An approval that was issued for a request, signed and whose signer is registered with enough
  -- authority and in scope, verifies at any time before the challenge and the request expire.
  pub verify-issue :
      (e : Ed25519) (v w : ApprovalVerifier) (id : String) (signing_key : List ℕ)
      (authority required : ApproverAuthority) (o : Option String) {approval : SignedApproval}
      (now : ℕ)
      → Verifies e signing_key
      → sign_approval e c id signing_key ≡ ok approval
      → add_approver_for_organization e v id (e.verifying_key signing_key) authority o ≡ ok w
      → required_for decision.required_capability ≡ ok required
      → rank required ≤ rank authority
      → IsInScope v.require_organization_scope o request.envelope.organization_id
      → Protocol.verify h request now ≡ ok tt
      → now < expires
      → verify e h w request decision approval now ≡ ok tt
  unfolding sign_approval
  verify-issue e v w id signing_key authority required o {approval} now law signed added asked
        enough scope verified t =
      let (_, _, s₁) = >>=-eq-ok (validate_text id) _ signed in
      let (m, em, s₂) = >>=-eq-ok (approval_message c id) _ s₁ in
      let (d, k, b) = issue_sound now t in
      let (_, g, sc) = get-add e v id (e.verifying_key signing_key) authority o added in
      let made : SignedApproval = record {
        challenge = c;
        approver_id = id;
        signature = e.sign signing_key m;
      } in
      let same : made ≡ approval = ground (arith, s₂) in
      subst (λ a. verify e h w request decision a now ≡ ok tt) same
        ((approval_verify_iff e h w request decision made now).1 (record {
          verified = verified;
          decided = d;
          needed = k;
          bound = b;
          approver = record {
            key = e.verifying_key signing_key;
            authority = authority;
            organization_id = o;
            revoked = false;
          };
          registered = g;
          signer = record {
            active = refl;
            required = required;
            asked = asked;
            authority = enough;
            in_scope = subst (λ b. IsInScope b o request.envelope.organization_id) (sym sc) scope;
            message = m;
            signed = em;
            signature = law m;
          };
        }))
