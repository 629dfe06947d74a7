-- ===== src/Examples/Brokers.antt =====
-- A broker that allows a write, and one that consumes an approval.
use vor_commander.Base.{
  ℕ, ◌≡◌, ◌≢◌, ◌≤◌, ◌+◌, refl, true, Option, none, some, List, [], ◌∷◌, ok, arith, ap,
  if◌then◌else◌,
}
use vor_commander.Base.Map.{get}
use vor_commander.Base.Text.{
  Text, codes, utf8, is_blank, is_whitespace, text_eq, split, join, trim_end, split_at_byte,
}
use vor_commander.Protocol
use vor_commander.Protocol.{
  ActionRequest, PolicyDecision, PolicyDecisionKind, digest, normalized, validate_envelope,
  require_fields,
}
use vor_commander.Policy.Engine.{
  evaluate, decision, rule_for, system_rule, parameter, filesystem_write_decision,
  filesystem_decision, candidates, longest, valid_precondition,
}
use vor_commander.Policy.Normalize.{
  normalize_windows_path, split_windows_path, join_windows_path, has_short_name_alias, is_ambiguous,
  is_reserved_windows_name,
}
use vor_commander.WinPath.{
  windows_path_within, sensitive_windows_path, sensitive_parts, sensitive_place,
  sensitive_extension,
}
use vor_commander.Approval
use vor_commander.Approval.{
  approval_message, push_text, validate_text, u64_be_bytes, ensure_decision_matches,
  verify_challenge_binding, check_approver, required_for,
}
use vor_commander.Audit.Types.{AuditEvent, AuditRecord, Row, Formats}
use vor_commander.Audit.Table.{find_row}
use vor_commander.Audit.Store.{
  no_fault, commit_fault, zero_hash, append, prepare, current_last, load_jsonl_last, load_db_last,
  hash_record, has_outcome_for, count_policy_auto_writes_since, sum_policy_auto_write_bytes_since,
  window_events,
}
use vor_commander.Audit.Recovery.{completed, claim_approval_consumed}
use vor_commander.Core
use vor_commander.Core.{
  decide, rate_limit, limit_write, content_bytes, saturating_add, Outside, Broker, Authorization,
  ExecutionAuthorization, key_of, consume_approval_at, check_approval, claim, and_then,
  log_consumption, append_approval_event, authorize_at,
}
use vor_commander.Core.Consume.{
  consume_checked, execution_for, consume_once, run_calls, Call, authorize, consume, set_state,
}
use vor_commander.Examples.Data.{hashing, checksum, engine, externals, write_request}
use vor_commander.Examples.Approvals.{
  scheme, stop_request, stop_decision, signed_approval, registry, nonce_32,
}
use vor_commander.Examples.Ledgers.{
  event, empty_disk, empty_ledger, formats, formats-IsFaithful, appended,
}
use vor_commander.Core.Limit.{auto_write_within_limits, written_files, written_bytes}

-- A format that keeps of an event its outcome, and of a record its place and hash.
abbrev event_with : Text → AuditEvent
event_with t = record event {
  request_id = "r2";
  envelope_digest = stop_request.envelope_digest;
  outcome = if text_eq t (codes "approval") then "approval" else "other";
}

abbrev parse_record : Text → Option AuditRecord
parse_record [] = none
parse_record (c ∷ []) = none
parse_record (c ∷ (n ∷ h)) =
    some (record { sequence = n; previous_hash = zero_hash; record_hash = h; event = event })

abbrev brief : Formats
brief = record {
  event_to_json = λ e. some (codes e.outcome);
  event_from_json = λ t. some (event_with t);
  record_to_json = λ r. some (65 ∷ r.sequence ∷ r.record_hash);
  record_from_json = parse_record;
  sha256 = checksum;
}

abbrev pub outside : Outside
outside = record { externals = externals; formats = brief; hashing = hashing; ed25519 = scheme }

-- the ledger after the broker has asked for the approval
abbrev prepared_row : Row
prepared_row = record {
  sequence = 1;
  previous_hash = zero_hash;
  record_hash = nonce_32;
  event_json = codes "approval";
}

abbrev pub broker : Broker
broker = record {
  policy = engine;
  ledger = record {
    disk = record empty_disk { rows = prepared_row ∷ []; jsonl = some ((65 ∷ 1 ∷ nonce_32) ∷ []) };
    last_sequence = 1;
    last_hash = nonce_32;
  };
}

abbrev pub answer : ExecutionAuthorization
answer = record {
  authorization = record { request = stop_request; decision = stop_decision };
  approver_id = "bob";
  approval_expires_at_unix_ms = 50000;
}

pub stop_consumed :
    (consume_approval_at outside no_fault no_fault broker stop_request signed_approval registry
      10).1
    ≡ ok answer
unfolding consume_approval_at check_approval and_then claim claim_approval_consumed log_consumption
    append_approval_event append prepare current_last load_jsonl_last load_db_last hash_record
    has_outcome_for Protocol.verify digest normalized validate_envelope require_fields is_blank
    is_whitespace utf8 evaluate decision rule_for system_rule Approval.verify approval_message
    push_text validate_text u64_be_bytes ensure_decision_matches verify_challenge_binding
    check_approver required_for get find_row
stop_consumed = refl

consume_checked_example :
    (Protocol.verify hashing stop_request 10 ≡ ok tt)
    × (has_outcome_for brief broker.ledger.disk.rows (key_of stop_request) "approval" ≡ ok true)
    × (Approval.verify scheme hashing registry stop_request
          (evaluate externals engine stop_request)
          signed_approval
          10
        ≡ ok tt)
    × (answer
        ≡ execution_for outside stop_request signed_approval
            (evaluate externals engine stop_request))
consume_checked_example =
    consume_checked outside no_fault no_fault broker stop_request signed_approval registry 10 answer
      stop_consumed

abbrev later_calls : List Call
later_calls =
    authorize no_fault stop_request 11
    ∷ consume commit_fault no_fault stop_request signed_approval registry 12
    ∷ set_state (record { request = stop_request; decision = stop_decision }) completed 13
    ∷ []

consume_once_example :
    (consume_approval_at outside no_fault no_fault
      (run_calls outside later_calls
        (consume_approval_at outside no_fault no_fault broker stop_request signed_approval registry
          10).0)
      stop_request
      signed_approval
      registry
      20).1
    ≢ ok answer
consume_once_example =
    consume_once outside no_fault no_fault no_fault no_fault broker stop_request stop_request
      signed_approval signed_approval registry registry 10 20 later_calls answer answer
      stop_consumed refl

abbrev writer_outside : Outside
writer_outside = record {
  externals = externals;
  formats = formats;
  hashing = hashing;
  ed25519 = scheme;
}

abbrev writer : Broker
writer = record { policy = engine; ledger = empty_ledger }

abbrev safe_write : PolicyDecision
safe_write = record {
  request_id = "r1";
  kind = PolicyDecisionKind.auto;
  policy_id = "main";
  reason_code = "auto_write_safe";
  required_capability = none;
  envelope_digest = write_request.envelope_digest;
}

abbrev allowed : Authorization
allowed = record { request = write_request; decision = safe_write }

write_decided : decide writer_outside writer write_request 10 ≡ ok safe_write
unfolding decide rate_limit limit_write Protocol.verify digest normalized validate_envelope
    require_fields is_blank is_whitespace utf8 evaluate decision rule_for filesystem_write_decision
    filesystem_decision candidates longest normalize_windows_path split_windows_path
    join_windows_path has_short_name_alias is_ambiguous is_reserved_windows_name split join trim_end
    windows_path_within split_at_byte sensitive_windows_path sensitive_parts sensitive_place
    sensitive_extension parameter get valid_precondition content_bytes
    count_policy_auto_writes_since sum_policy_auto_write_bytes_since window_events
write_decided = refl

write_allowed : (authorize_at writer_outside no_fault writer write_request 10).1 ≡ ok allowed
unfolding authorize_at content_bytes parameter get
write_allowed = rw write_decided (ap (λ m. (Core.answer allowed m engine).1) appended)

auto_write_within_limits_example :
    (count : ℕ) × (bytes : ℕ) × (written_files writer_outside writer write_request 10 ≡ ok count)
    × (written_bytes writer_outside writer write_request 10 ≡ ok bytes)
    × (saturating_add bytes (content_bytes write_request)
        ≤ engine.config.auto_write.max_bytes_per_minute)
    × (written_files writer_outside
          (authorize_at writer_outside no_fault writer write_request 10).0
          write_request
          10
        ≡ ok (count + 1))
    × (count + 1 ≤ engine.config.auto_write.max_files_per_minute)
auto_write_within_limits_example =
    auto_write_within_limits writer_outside formats-IsFaithful writer write_request 10 allowed
      (ground arith) refl write_allowed refl
