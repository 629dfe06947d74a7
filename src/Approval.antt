-- ===== src/Approval.antt =====
-- crates/vor-approval/src/lib.rs: challenges, signed approvals, the registry of trusted approvers
-- and the verification of an approval. Ed25519 (`ed25519_dalek`) is a parameter.
pub mod Message
pub mod Registry
pub mod Verify
pub mod RoundTrip
use Prim.Native.Nat.{ℕ, ◌/◌, ◌%◌, ◌^◌}
use vor_commander.Base.{
  String, str_eq, Bool, true, false, not, Option, none, some, List, [], ◌∷◌, ◌++◌, leb, ltb, ◌==◌,
  ◌&&◌, ◌||◌, if◌then◌else◌, Result, ok, err, reject_if, ok_or, map_err, ◌>>=◌, ◌>>◌,
}
use vor_commander.Base.Text.{
  Text, codes, bytes, byte_len, is_blank, contains_char, text_eq, trim, lower,
}
use vor_commander.Base.Map.{Map, get, insert}
use vor_commander.Protocol
use vor_commander.Protocol.{
  Digest32, ActionRequest, PolicyDecision, PolicyDecisionKind, ProtocolError, Hashing,
}
use vor_commander.WinPath.{is_one_of}

pub record ApprovalChallenge : Type 0 where
  pub request_id : String
  pub envelope_digest : Digest32
  pub policy_id : String
  pub required_capability : Option String
  pub expires_at_unix_ms : ℕ
  pub approval_nonce : List ℕ

pub record SignedApproval : Type 0 where
  pub challenge : ApprovalChallenge
  pub approver_id : String
  pub signature : List ℕ

pub data ApproverAuthority : Type 0 where
  approve elevated owner : ApproverAuthority

pub data ApprovalError : Type 0 where
  protocol : ProtocolError → ApprovalError
  decision_mismatch decision_does_not_require_approval invalid_challenge : ApprovalError
  challenge_mismatch invalid_expiry approval_expired unknown_approver : ApprovalError
  approver_revoked invalid_public_key invalid_approver_authority : ApprovalError
  unsupported_required_capability insufficient_approver_authority : ApprovalError
  approver_tenant_mismatch duplicate_approver invalid_signature : ApprovalError

pub record TrustedApprover : Type 0 where
  pub key : List ℕ
  pub authority : ApproverAuthority
  pub organization_id : Option String
  pub revoked : Bool

pub record ApprovalVerifier : Type 0 where
  pub approvers : Map TrustedApprover
  pub require_organization_scope : Bool

-- What is taken from `ed25519_dalek`: a public key is its 32 bytes where `from_bytes` accepts them,
-- a signing key is its secret bytes.
pub record Ed25519 : Type 0 where
  pub is_key : List ℕ → Bool
  pub verifying_key : List ℕ → List ℕ
  pub sign : List ℕ → List ℕ → List ℕ
  pub verify : List ℕ → List ℕ → List ℕ → Bool

-- The derived `PartialOrd`: declaration order.
abbrev pub rank : ApproverAuthority → ℕ
rank approve = 0
rank elevated = 1
rank owner = 2

unfoldable pub parse_authority : Text → Result ApprovalError ApproverAuthority
parse_authority value =
    let word = lower (trim value) in
    if is_one_of ("approve" ∷ "approval" ∷ []) word
    then ok approve
    else if is_one_of ("elevated" ∷ []) word
    then ok elevated
    else if is_one_of ("owner" ∷ "full_owner" ∷ []) word
    then ok owner
    else err invalid_approver_authority

unfoldable pub required_for : Option String → Result ApprovalError ApproverAuthority
required_for none = ok approve
required_for (some value) =
    if str_eq value "elevated"
    then ok elevated
    else if str_eq value "owner" || str_eq value "full_owner"
    then ok owner
    else err unsupported_required_capability

abbrev pub max_field_bytes : ℕ
max_field_bytes = 4096

unfoldable pub validate_text : String → Result ApprovalError (Unit {0})
validate_text value =
    reject_if
      (is_blank (codes value)
        || ltb max_field_bytes (byte_len (codes value))
        || contains_char 0 (codes value))
      invalid_challenge

-- `to_be_bytes` of a `u32` and of a `u64`
abbrev pub u32_be_bytes : ℕ → List ℕ
u32_be_bytes n = (n / 2 ^ 24 % 256) ∷ (n / 2 ^ 16 % 256) ∷ (n / 2 ^ 8 % 256) ∷ (n % 256) ∷ []

unfoldable pub u64_be_bytes : ℕ → List ℕ
u64_be_bytes n =
    (n / 2 ^ 56 % 256)
    ∷ (n / 2 ^ 48 % 256)
    ∷ (n / 2 ^ 40 % 256)
    ∷ (n / 2 ^ 32 % 256)
    ∷ u32_be_bytes n

-- What `push_text` appends.
unfoldable pub push_text : String → Result ApprovalError (List ℕ)
push_text value = do
  validate_text value
  let length = byte_len (codes value)
  reject_if (leb (2 ^ 32) length) invalid_challenge
  ok (u32_be_bytes length ++ bytes (codes value))

abbrev pub approval_domain : List ℕ
approval_domain = codes "vor-commander:approval:v1\0"

abbrev pub push_capability : Option String → Result ApprovalError (List ℕ)
push_capability none = ok (0 ∷ [])
push_capability (some value) = do text ← push_text value; ok (1 ∷ text)

unfoldable pub approval_message : ApprovalChallenge → String → Result ApprovalError (List ℕ)
approval_message c approver_id = do
  request ← push_text c.request_id
  policy ← push_text c.policy_id
  capability ← push_capability c.required_capability
  approver ← push_text approver_id
  ok (
      approval_domain
      ++ (request
          ++ (c.envelope_digest
              ++ (policy
                  ++ (capability
                      ++ (u64_be_bytes c.expires_at_unix_ms ++ (c.approval_nonce ++ approver)))))))

unfoldable pub ensure_decision_matches :
    ActionRequest → PolicyDecision → Result ApprovalError (Unit {0})
ensure_decision_matches request decision =
    reject_if
      (not (str_eq decision.request_id request.envelope.request_id)
        || not (text_eq decision.envelope_digest request.envelope_digest))
      decision_mismatch

abbrev pub is_approval : PolicyDecisionKind → Bool
is_approval PolicyDecisionKind.approval = true
is_approval _ = false

abbrev pub same_capability : Option String → Option String → Bool
same_capability none none = true
same_capability none (some t) = false
same_capability (some s) none = false
same_capability (some s) (some t) = str_eq s t

unfoldable pub verify_challenge_binding :
    ActionRequest → PolicyDecision → ApprovalChallenge → ℕ → Result ApprovalError (Unit {0})
verify_challenge_binding request decision challenge now_unix_ms = do
  reject_if
      (not (str_eq challenge.request_id request.envelope.request_id)
        || not (text_eq challenge.envelope_digest request.envelope_digest)
        || not (str_eq challenge.policy_id decision.policy_id)
        || not (same_capability challenge.required_capability decision.required_capability))
      challenge_mismatch
  reject_if (leb challenge.expires_at_unix_ms now_unix_ms) approval_expired
  reject_if (ltb request.envelope.expires_at_unix_ms challenge.expires_at_unix_ms) invalid_expiry
  ok tt

-- `ApprovalChallenge::issue`, with the random nonce
unfoldable pub issue :
    Hashing
    → ActionRequest
    → PolicyDecision
    → ℕ
    → ℕ
    → List ℕ
    → Result ApprovalError ApprovalChallenge
issue h request decision now_unix_ms expires_at_unix_ms nonce = do
  map_err protocol (Protocol.verify h request now_unix_ms)
  ensure_decision_matches request decision
  reject_if (not (is_approval decision.kind)) decision_does_not_require_approval
  reject_if
      (leb expires_at_unix_ms now_unix_ms
        || ltb request.envelope.expires_at_unix_ms expires_at_unix_ms)
      invalid_expiry
  reject_if (is_blank (codes decision.policy_id)) invalid_challenge
  ok (record {
    request_id = request.envelope.request_id;
    envelope_digest = request.envelope_digest;
    policy_id = decision.policy_id;
    required_capability = decision.required_capability;
    expires_at_unix_ms = expires_at_unix_ms;
    approval_nonce = nonce;
  })

module _ (e : Ed25519) where
  unfoldable pub sign_approval :
      ApprovalChallenge → String → List ℕ → Result ApprovalError SignedApproval
  sign_approval challenge approver_id signing_key = do
    validate_text approver_id
    message ← approval_message challenge approver_id
    ok (record {
      challenge = challenge;
      approver_id = approver_id;
      signature = e.sign signing_key message;
    })

  abbrev pub validate_organization : Option String → Result ApprovalError (Unit {0})
  validate_organization none = ok tt
  validate_organization (some organization_id) = validate_text organization_id

  abbrev pub is_present : Option TrustedApprover → Bool
  is_present none = false
  is_present (some a) = true

  unfoldable pub add_approver_for_organization :
      ApprovalVerifier
      → String
      → List ℕ
      → ApproverAuthority
      → Option String
      → Result ApprovalError ApprovalVerifier
  add_approver_for_organization v approver_id public_key authority organization_id = do
    validate_text approver_id
    reject_if (is_present (get approver_id v.approvers)) duplicate_approver
    validate_organization organization_id
    reject_if (not (e.is_key public_key)) invalid_public_key
    ok (record v {
      approvers =
          insert approver_id
            (record {
              key = public_key;
              authority = authority;
              organization_id = organization_id;
              revoked = false;
            })
            v.approvers;
    })

  unfoldable pub add_approver_with_authority :
      ApprovalVerifier → String → List ℕ → ApproverAuthority → Result ApprovalError ApprovalVerifier
  add_approver_with_authority v approver_id public_key authority =
      add_approver_for_organization v approver_id public_key authority none

  unfoldable pub add_approver :
      ApprovalVerifier → String → List ℕ → Result ApprovalError ApprovalVerifier
  add_approver v approver_id public_key =
      add_approver_with_authority v approver_id public_key approve

  unfoldable pub revoke_approver : ApprovalVerifier → String → Result ApprovalError ApprovalVerifier
  revoke_approver v approver_id = do
    validate_text approver_id
    approver ← ok_or (get approver_id v.approvers) unknown_approver
    ok (record v {
      approvers = insert approver_id (record approver { revoked = true }) v.approvers;
    })

  unfoldable pub rotate_approver_for_organization :
      ApprovalVerifier
      → String
      → List ℕ
      → ApproverAuthority
      → String
      → Result ApprovalError ApprovalVerifier
  rotate_approver_for_organization v approver_id public_key authority organization_id = do
    validate_text approver_id
    validate_text organization_id
    reject_if (not (e.is_key public_key)) invalid_public_key
    ok (record v {
      approvers =
          insert approver_id
            (record {
              key = public_key;
              authority = authority;
              organization_id = some organization_id;
              revoked = false;
            })
            v.approvers;
    })

  abbrev pub is_unscoped : Option String → Bool
  is_unscoped none = true
  is_unscoped (some o) = false

  abbrev pub is_foreign : Option String → String → Bool
  is_foreign none organization_id = false
  is_foreign (some o) organization_id = not (str_eq o organization_id)

  -- the checks on the approver, once found
  unfoldable pub check_approver :
      ApprovalVerifier
      → TrustedApprover
      → ActionRequest
      → PolicyDecision
      → SignedApproval
      → Result ApprovalError (Unit {0})
  check_approver v approver request decision approval = do
    reject_if approver.revoked approver_revoked
    required ← required_for decision.required_capability
    reject_if (ltb (rank approver.authority) (rank required)) insufficient_approver_authority
    reject_if (v.require_organization_scope && is_unscoped approver.organization_id)
        approver_tenant_mismatch
    reject_if (is_foreign approver.organization_id request.envelope.organization_id)
        approver_tenant_mismatch
    message ← approval_message approval.challenge approval.approver_id
    reject_if (not (e.verify approver.key message approval.signature)) invalid_signature

  unfoldable pub verify :
      Hashing
      → ApprovalVerifier
      → ActionRequest
      → PolicyDecision
      → SignedApproval
      → ℕ
      → Result ApprovalError (Unit {0})
  verify h v request decision approval now_unix_ms = do
    map_err protocol (Protocol.verify h request now_unix_ms)
    ensure_decision_matches request decision
    reject_if (not (is_approval decision.kind)) decision_does_not_require_approval
    verify_challenge_binding request decision approval.challenge now_unix_ms
    approver ← ok_or (get approval.approver_id v.approvers) unknown_approver
    check_approver v approver request decision approval
