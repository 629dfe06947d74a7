-- ===== src/Examples/Approvals.antt =====
-- An approval of the policy's decision to end a process, from its issue to the revocation of its
-- signer.
use vor_commander.Base.{
  ℕ, ◌≡◌, ◌≢◌, ◌↔◌, refl, ◌++◌, ◌%◌, String, true, false, none, some, List, [], ◌∷◌, ok, arith,
  ◌==◌, length, eq_iff,
}
use vor_commander.Base.Map.{get, insert}
use vor_commander.Base.Text.{
  codes, bytes, utf8, text_eq, text_eq_refl, byte_len, is_blank, is_whitespace,
}
use vor_commander.Protocol
use vor_commander.Protocol.{
  ActionRequest, PolicyDecision, PolicyDecisionKind, digest, normalized, validate_envelope,
  require_fields,
}
use vor_commander.Approval.{
  Ed25519, ApprovalChallenge, SignedApproval, ApprovalVerifier, approve, issue, sign_approval,
  add_approver_for_organization, revoke_approver, verify, approval_message, push_text, u32_be_bytes,
  u64_be_bytes, approval_domain, ensure_decision_matches, validate_text, required_for,
}
use vor_commander.Approval.Message.{approval_message-injective, IsChallenge}
use vor_commander.Approval.Verify.{approval_verify_iff, IsApproved}
use vor_commander.Approval.Registry.{revoked_never}
use vor_commander.Approval.RoundTrip.{verify-issue, Verifies}
use vor_commander.Examples.Data.{hashing, with_action, total}

-- A signature scheme in which the signature is the key behind the sum of the message.
abbrev pub scheme : Ed25519
scheme = record {
  is_key = λ k. length k == 2;
  verifying_key = λ k. k;
  sign = λ k m. (total m % 256) ∷ k;
  verify = λ k m s. text_eq ((total m % 256) ∷ k) s;
}

scheme-Verifies : (k : List ℕ) → Verifies scheme k
scheme-Verifies k m = text_eq_refl ((total m % 256) ∷ k)

abbrev pub stop_request : ActionRequest
stop_request = with_action "r2" "process.terminate"

abbrev pub stop_decision : PolicyDecision
stop_decision = record {
  request_id = "r2";
  kind = PolicyDecisionKind.approval;
  policy_id = "main";
  reason_code = "process_terminate";
  required_capability = none;
  envelope_digest = stop_request.envelope_digest;
}

abbrev pub nonce_32 : List ℕ
nonce_32 =
    7 ∷ 7 ∷ 7 ∷ 7 ∷ 7 ∷ 7 ∷ 7 ∷ 7 ∷ 7 ∷ 7 ∷ 7 ∷ 7 ∷ 7 ∷ 7 ∷ 7 ∷ 7 ∷ 8 ∷ 8 ∷ 8 ∷ 8 ∷ 8 ∷ 8 ∷ 8 ∷ 8
    ∷ 8 ∷ 8 ∷ 8 ∷ 8 ∷ 8 ∷ 8 ∷ 8 ∷ 8 ∷ []

abbrev pub challenge : ApprovalChallenge
challenge = record {
  request_id = "r2";
  envelope_digest = stop_request.envelope_digest;
  policy_id = "main";
  required_capability = none;
  expires_at_unix_ms = 50000;
  approval_nonce = nonce_32;
}

abbrev pushed : String → List ℕ
pushed s = u32_be_bytes (byte_len (codes s)) ++ bytes (codes s)

abbrev message : List ℕ
message =
    approval_domain
    ++ (pushed "r2"
        ++ (challenge.envelope_digest
            ++ (pushed "main" ++ ((0 ∷ []) ++ (u64_be_bytes 50000 ++ (nonce_32 ++ pushed "bob"))))))

abbrev pub key : List ℕ
key = 3 ∷ 4 ∷ []

abbrev pub signed_approval : SignedApproval
signed_approval = record {
  challenge = challenge;
  approver_id = "bob";
  signature = scheme.sign key message;
}

abbrev nobody : ApprovalVerifier
nobody = record { approvers = []; require_organization_scope = true }

abbrev pub registry : ApprovalVerifier
registry = record nobody {
  approvers =
      (
        "bob",
        record { key = key; authority = approve; organization_id = some "org"; revoked = false },
      )
      ∷ [];
}

abbrev revoked_registry : ApprovalVerifier
revoked_registry = record nobody {
  approvers =
      (
        "bob",
        record { key = key; authority = approve; organization_id = some "org"; revoked = true },
      )
      ∷ [];
}

challenge_issued : issue hashing stop_request stop_decision 5 50000 nonce_32 ≡ ok challenge
unfolding issue Protocol.verify digest normalized validate_envelope require_fields is_blank
    is_whitespace ensure_decision_matches utf8
challenge_issued = refl

challenge_message : approval_message challenge "bob" ≡ ok message
unfolding approval_message push_text validate_text is_blank is_whitespace
challenge_message = refl

challenge_signed : sign_approval scheme challenge "bob" key ≡ ok signed_approval
unfolding sign_approval approval_message push_text validate_text is_blank is_whitespace
challenge_signed = refl

bob_added : add_approver_for_organization scheme nobody "bob" key approve (some "org") ≡ ok registry
unfolding add_approver_for_organization validate_text is_blank is_whitespace get insert
bob_added = refl

bob_revoked : revoke_approver scheme registry "bob" ≡ ok revoked_registry
unfolding revoke_approver validate_text is_blank is_whitespace get insert
bob_revoked = refl

stop_verified : Protocol.verify hashing stop_request 10 ≡ ok tt
unfolding Protocol.verify digest normalized validate_envelope require_fields is_blank is_whitespace
    utf8
stop_verified = refl

approve_required : required_for none ≡ ok approve
unfolding required_for
approve_required = refl

verify-issue_example :
    verify scheme hashing registry stop_request stop_decision signed_approval 10 ≡ ok tt
verify-issue_example =
    verify-issue hashing stop_request stop_decision 5 50000 nonce_32 challenge_issued scheme nobody
      registry "bob" key approve approve (some "org") 10 (scheme-Verifies key) challenge_signed
      bob_added approve_required (ground arith) refl stop_verified (ground arith)

abbrev bob : String
bob = "bob"

challenge-IsChallenge : IsChallenge challenge
challenge-IsChallenge = record { digest_size = refl; nonce_size = refl; expiry_u64 = ground arith }

approval_message-injective_example : (challenge ≡ challenge) × (bob ≡ bob)
approval_message-injective_example =
    approval_message-injective challenge challenge bob bob challenge-IsChallenge
      challenge-IsChallenge challenge_message challenge_message

approval_verify_iff_example :
    (verify scheme hashing registry stop_request stop_decision signed_approval 10 ≡ ok tt)
    ↔ IsApproved scheme hashing registry stop_request stop_decision signed_approval 10
approval_verify_iff_example =
    approval_verify_iff scheme hashing registry stop_request stop_decision signed_approval 10

revoked_never_example :
    verify scheme hashing revoked_registry stop_request stop_decision signed_approval 10 ≢ ok tt
revoked_never_example =
    revoked_never scheme registry hashing revoked_registry "bob" bob_revoked stop_request
      stop_decision signed_approval 10 refl

abbrev carols : SignedApproval
carols = record signed_approval { approver_id = "carol" }

carol_other : carols.approver_id ≢ "bob"
carol_other h = ground (arith, (eq_iff "carol" "bob").1 h)

abbrev elsewhere : ActionRequest
elsewhere = record stop_request {
  envelope = record stop_request.envelope { organization_id = "other" };
}

elsewhere_other : elsewhere.envelope.organization_id ≢ "org"
elsewhere_other h = ground (arith, (eq_iff "other" "org").1 h)
