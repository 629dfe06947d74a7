-- ===== src/Protocol.antt =====
-- crates/vor-protocol/src/lib.rs: the action envelope, its canonical digest, sealing a request and
-- verifying it. `serde_json` and `sha2` are parameters, the record `Hashing`.
pub mod Seal
pub mod Canonical
use vor_commander.Base.{
  ℕ, String, Bool, Option, none, some, List, [], ◌∷◌, map, leb, ltb, ◌==◌, ◌&&◌, if◌then◌else◌,
  length, Result, ok, err, reject_if, ok_or, ◌>>=◌, ◌>>◌, not, true, false,
}
use vor_commander.Base.Text.{Text, codes, is_blank, text_eq}
use vor_commander.Base.Map.{Map}
use vor_commander.Base.Sort.{sort, text_le}
use vor_commander.Json.{Value}

-- `[u8; 32]`, as its bytes
abbrev pub Digest32 : Type 0
Digest32 = List ℕ

pub record Capability : Type 0 where
  pub name : String
  pub constraints : List Text

pub record ActionEnvelope : Type 0 where
  pub request_id : String
  pub organization_id : String
  pub actor_id : String
  pub device_id : String
  pub action : String
  pub target : String
  pub parameters : Map Value
  pub requested_capabilities : List Capability
  pub expires_at_unix_ms : ℕ
  pub nonce : List ℕ

pub record ActionRequest : Type 0 where
  pub envelope : ActionEnvelope
  pub envelope_digest : Digest32

pub data PolicyDecisionKind : Type 0 where
  auto approval deny : PolicyDecisionKind

pub record PolicyDecision : Type 0 where
  pub request_id : String
  pub kind : PolicyDecisionKind
  pub policy_id : String
  pub reason_code : String
  pub required_capability : Option String
  pub envelope_digest : Digest32

pub data ProtocolError : Type 0 where
  missing_field : String → ProtocolError
  invalid_expiry nonce_too_short digest_mismatch expired serialization : ProtocolError

-- What is taken from `serde_json::to_vec` (which can fail) and `Sha256::digest`.
pub record Hashing : Type 0 where
  pub to_vec : ActionEnvelope → Option (List ℕ)
  pub sha256 : List ℕ → Digest32

-- `Vec::dedup`: drop what equals the element before it
unfoldable pub dedup : List Text → List Text
dedup [] = []
dedup (x ∷ []) = x ∷ []
dedup (x ∷ (y ∷ xs)) = let rest = dedup (y ∷ xs) in if text_eq x y then rest else x ∷ rest

-- `Vec<String>::cmp`
unfoldable pub texts_le : List Text → List Text → Bool
texts_le [] ts = true
texts_le (s ∷ ss) [] = false
texts_le (s ∷ ss) (t ∷ ts) = if text_eq s t then texts_le ss ts else text_le s t

-- `a.name.cmp(&b.name).then(a.constraints.cmp(&b.constraints))`
unfoldable pub capability_le : Capability → Capability → Bool
capability_le a b =
    if text_eq (codes a.name) (codes b.name)
    then texts_le a.constraints b.constraints
    else text_le (codes a.name) (codes b.name)

unfoldable pub normalized_capability : Capability → Capability
normalized_capability cap = record cap { constraints = dedup (sort text_le cap.constraints) }

unfoldable pub normalized : ActionEnvelope → ActionEnvelope
normalized e = record e {
  requested_capabilities = sort capability_le (map normalized_capability e.requested_capabilities);
}

unfoldable pub digest : Hashing → ActionEnvelope → Result ProtocolError Digest32
digest h e = do json ← ok_or (h.to_vec (normalized e)) serialization; ok (h.sha256 json)

-- the loop over the six named fields
unfoldable pub require_fields : List (String × String) → Result ProtocolError (Unit {0})
require_fields [] = ok tt
require_fields ((name, value) ∷ rest) =
    let next = require_fields rest in
    if is_blank (codes value) then err (missing_field name) else next

unfoldable pub validate_envelope : ActionEnvelope → Result ProtocolError (Unit {0})
unfolding require_fields
validate_envelope e = do
  require_fields (
      ("request_id", e.request_id)
      ∷ ("organization_id", e.organization_id)
      ∷ ("actor_id", e.actor_id)
      ∷ ("device_id", e.device_id)
      ∷ ("action", e.action)
      ∷ ("target", e.target)
      ∷ [])
  reject_if (e.expires_at_unix_ms == 0) invalid_expiry
  reject_if (ltb (length e.nonce) 16) nonce_too_short
  ok tt

unfoldable pub seal : Hashing → ActionEnvelope → Result ProtocolError ActionRequest
seal h e = do validate_envelope e; d ← digest h e; ok (record { envelope = e; envelope_digest = d })

unfoldable pub verify : Hashing → ActionRequest → ℕ → Result ProtocolError (Unit {0})
verify h r now_unix_ms = do
  validate_envelope r.envelope
  d ← digest h r.envelope
  reject_if (not (text_eq d r.envelope_digest)) digest_mismatch
  reject_if (leb r.envelope.expires_at_unix_ms now_unix_ms) expired
  ok tt
