-- ===== src/Protocol/Seal.antt =====
-- Sealing and verifying: what a verified request satisfies, and that a sealed one verifies.
use vor_commander.Base.{
  ℕ, ◌≤◌, ◌<◌, ◌≡◌, ◌↔◌, inl, inr, Result-cases, false, ok, err, length, arith, if◌then◌else◌, leb,
}
use vor_commander.Base.Text.{codes, is_blank, text_eq_refl, text_eq→≡}
use vor_commander.Protocol.{
  ActionEnvelope, ActionRequest, Hashing, expired, validate_envelope, digest, seal, verify,
}

-- What `validate_envelope` accepts.
pub record IsWellFormed (e : ActionEnvelope) : Type 0 where
  pub request_id : is_blank (codes e.request_id) ≡ false
  pub organization_id : is_blank (codes e.organization_id) ≡ false
  pub actor_id : is_blank (codes e.actor_id) ≡ false
  pub device_id : is_blank (codes e.device_id) ≡ false
  pub action : is_blank (codes e.action) ≡ false
  pub target : is_blank (codes e.target) ≡ false
  pub expires : 0 < e.expires_at_unix_ms
  pub nonce : 16 ≤ length e.nonce

pub validate-IsWellFormed : (e : ActionEnvelope) → validate_envelope e ≡ ok tt → IsWellFormed e
unfolding validate_envelope
validate-IsWellFormed e h = ground arith

validate_of_IsWellFormed : (e : ActionEnvelope) → IsWellFormed e → validate_envelope e ≡ ok tt
unfolding validate_envelope
validate_of_IsWellFormed e w = ground arith

pub record IsVerified (h : Hashing) (r : ActionRequest) (now : ℕ) : Type 0 where
  pub well_formed : IsWellFormed r.envelope
  pub digest_matches : digest h r.envelope ≡ ok r.envelope_digest
  pub not_expired : now < r.envelope.expires_at_unix_ms

verify_sound :
    (h : Hashing) (r : ActionRequest) (now : ℕ) → verify h r now ≡ ok tt → IsVerified h r now
unfolding verify
verify_sound h r now v = elim (Result-cases (digest h r.envelope)) [
  | inl (d, e) ↦ ground (arith, e, text_eq→≡ d r.envelope_digest, validate-IsWellFormed r.envelope)
  | inr (x, e) ↦ ground (arith, e)
]

verify_complete :
    (h : Hashing) (r : ActionRequest) (now : ℕ) → IsVerified h r now → verify h r now ≡ ok tt
unfolding verify
verify_complete h r now v =
    ground
      (arith, validate_of_IsWellFormed r.envelope v.well_formed, text_eq_refl r.envelope_digest)

-- A request verifies exactly when all its named fields are non-blank, its expiry is non-zero, its
-- nonce has 16 bytes or more, its digest is that of its envelope, and it has not expired.
pub verify_iff :
    (h : Hashing) (r : ActionRequest) (now : ℕ) → (verify h r now ≡ ok tt) ↔ IsVerified h r now
verify_iff h r now = (verify_sound h r now, verify_complete h r now)

-- A sealed request verifies until it expires, and then fails with `Expired`.
pub verify-seal :
    (h : Hashing) (e : ActionEnvelope) (now : ℕ) {r : ActionRequest}
    → seal h e ≡ ok r
    → verify h r now ≡ (if leb e.expires_at_unix_ms now then err expired else ok tt)
unfolding seal verify
verify-seal h e now {r} s = ground (arith, text_eq_refl r.envelope_digest)
