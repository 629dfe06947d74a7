-- ===== src/Audit/Types.antt =====
-- The data of the ledger: events, records, rows, errors, and the formats taken from `serde_json`
-- and `sha2`.
use native.Mathlib.Decide.{ℕ_discrete}
use vor_commander.Base.{ℕ, String, Option, List, str_eq, eq_iff, Bool-cases, inl, inr, arith}
use vor_commander.Base.Text.{Text}
use vor_commander.Protocol.{Digest32}

pub record AuditEvent : Type 0 where
  pub timestamp_unix_ms : ℕ
  pub organization_id : String
  pub actor_id : String
  pub device_id : String
  pub request_id : String
  pub action : String
  pub target : String
  pub outcome : String
  pub envelope_digest : Digest32
  pub authority : String
  pub approval : String
  pub policy_rule : String
  pub policy_hash : String
  pub content_bytes : ℕ

pub record AuditRecord : Type 0 where
  pub sequence : ℕ
  pub previous_hash : Digest32
  pub record_hash : Digest32
  pub event : AuditEvent

-- A row of `audit_records`. The hashes stand in it in hexadecimal, here as the bytes they decode to.
pub record Row : Type 0 where
  pub sequence : ℕ
  pub previous_hash : Digest32
  pub record_hash : Digest32
  pub event_json : Text

pub data AuditError : Type 0 where
  divergence : AuditError
  hash_mismatch : ℕ → AuditError
  invalid_hash invalid_sequence invalid_execution_state missing_execution_state : AuditError
  invalid_execution_transition lock_timeout clock io sqlite json : AuditError

-- `serde_json` on events and records, and SHA-256.
pub record Formats : Type 0 where
  pub event_to_json : AuditEvent → Option Text
  pub event_from_json : Text → Option AuditEvent
  pub record_to_json : AuditRecord → Option Text
  pub record_from_json : Text → Option AuditRecord
  pub sha256 : List ℕ → Digest32

String-discrete : Discrete String
String-discrete s t = elim (Bool-cases (str_eq s t)) [
  | inl h ↦ yes ((eq_iff s t).0 h)
  | inr h ↦ no (λ p. ground (arith, h, (eq_iff s t).1 p))
]

pub AuditEvent-discrete : Discrete AuditEvent
AuditEvent-discrete = hlevel (ℕ_discrete, String-discrete)

pub AuditRecord-discrete : Discrete AuditRecord
AuditRecord-discrete = hlevel (ℕ_discrete, String-discrete)
