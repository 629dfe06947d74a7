-- ===== src/Examples/Ledgers.antt =====
-- A ledger to which one event is appended.
use mathlib.Core.Bool.{decide, decide_iff}
use mathlib.Core.Path.{subst}
use vor_commander.Base.{
  ℕ, ◌≡◌, refl, true, false, Option, none, some, List, [], ◌∷◌, ◌++◌, ok, err, if◌then◌else◌, arith,
  inl, inr, Bool-cases, ◌⊎◌, length,
}
use vor_commander.Base.Text.{Text, bytes, utf8, is_blank, is_whitespace, text_eq}
use vor_commander.Protocol.{Digest32}
use vor_commander.Approval.{u64_be_bytes}
use vor_commander.Audit.Types.{
  AuditEvent, AuditRecord, Row, divergence, Formats, AuditEvent-discrete, AuditRecord-discrete,
}
use vor_commander.Audit.Table.{Key, find_row}
use vor_commander.Audit.Recovery.{
  not_executed, effect_applied, completed, parse_state, claim_approval_consumed,
  execution_recovery_state,
}
use vor_commander.Audit.Recovery.OneShot.{one_shot, run_calls, claim, set_state}
use vor_commander.Audit.Recovery.Forward.{never_back, IsAtLeast}
use vor_commander.Audit.Store.{
  Disk, Ledger, no_fault, commit_fault, zero_hash, append, prepare, current_last, load_jsonl_last,
  load_db_last, hash_record, verify_integrity, verify_rows, load_jsonl_records, same_records,
  count_policy_auto_writes_since, window_events,
}
use vor_commander.Audit.Store.Chain.{IsFaithful}
use vor_commander.Audit.Store.Integrity.{verify-append}
use vor_commander.Audit.Store.Tamper.{last_hash_pins_rows, IsU64, IsBroken}
use vor_commander.Audit.Store.Faults.{commit_fault-fail_closed}
use vor_commander.Examples.Data.{checksum, write_request}

-- A format that knows one value.
module _ {A : Type 0} (same : Discrete A) (known : A) where
  abbrev written_as : A → Option Text
  written_as a = if decide (same known a) then some (65 ∷ []) else none

  abbrev read_as : Text → Option A
  read_as t = if text_eq t (65 ∷ []) then some known else none

  written_known : written_as known ≡ some (65 ∷ [])
  written_known = rw ((decide_iff (same known known)).1 refl)

  written_is : (a : A) (t : Text) → written_as a ≡ some t → (known ≡ a) × (65 ∷ [] ≡ t)
  written_is a t h = elim (Bool-cases (decide (same known a))) [
    | inl e ↦ ((decide_iff (same known a)).0 e, ground (arith, rw e at h))
    | inr e ↦ absurd (ground (arith, rw e at h))
  ]

  read_written : (a : A) (t : Text) → written_as a ≡ some t → read_as t ≡ some a
  read_written a t h = rw (← (written_is a t h).0, ← (written_is a t h).1)

abbrev pub event : AuditEvent
event = record {
  timestamp_unix_ms = 10;
  organization_id = "org";
  actor_id = "alice";
  device_id = "pc";
  request_id = "r1";
  action = "filesystem.write";
  target = "C:\\work\\a.txt";
  outcome = "auto";
  envelope_digest = write_request.envelope_digest;
  authority = "policy";
  approval = "not-required";
  policy_rule = "auto_write_safe";
  policy_hash = "00";
  content_bytes = 10;
}

abbrev first_hash : Digest32
first_hash = checksum (zero_hash ++ (u64_be_bytes 1 ++ bytes (65 ∷ [])))

abbrev first_record : AuditRecord
first_record = record {
  sequence = 1;
  previous_hash = zero_hash;
  record_hash = first_hash;
  event = event;
}

abbrev first_row : Row
first_row = record {
  sequence = 1;
  previous_hash = zero_hash;
  record_hash = first_hash;
  event_json = 65 ∷ [];
}

abbrev pub formats : Formats
formats = record {
  event_to_json = written_as AuditEvent-discrete event;
  event_from_json = read_as AuditEvent-discrete event;
  record_to_json = written_as AuditRecord-discrete first_record;
  record_from_json = read_as AuditRecord-discrete first_record;
  sha256 = checksum;
}

letter : is_blank (65 ∷ []) ≡ false
unfolding is_blank is_whitespace
letter = refl

pub formats-IsFaithful : IsFaithful formats
formats-IsFaithful = record {
  event = read_written AuditEvent-discrete event;
  entry = read_written AuditRecord-discrete first_record;
  line = λ r t h.
      subst (λ t. is_blank t ≡ false) (written_is AuditRecord-discrete first_record r t h).1 letter;
}

abbrev pub empty_disk : Disk
empty_disk = record { rows = []; jsonl = none; consumptions = []; executions = [] }

abbrev pub empty_ledger : Ledger
empty_ledger = record { disk = empty_disk; last_sequence = 0; last_hash = zero_hash }

abbrev pub one_ledger : Ledger
one_ledger = record {
  disk = record empty_disk { rows = first_row ∷ []; jsonl = some ((65 ∷ []) ∷ []) };
  last_sequence = 1;
  last_hash = first_hash;
}

empty_verified : verify_integrity formats empty_disk ≡ ok tt
unfolding verify_integrity verify_rows load_jsonl_records same_records
empty_verified = refl

pub appended : append formats no_fault empty_ledger event ≡ (one_ledger, ok first_record)
unfolding append current_last load_jsonl_last load_db_last prepare hash_record
appended =
    rw (written_known AuditEvent-discrete event, written_known AuditRecord-discrete first_record)

verify-append_example : verify_integrity formats one_ledger.disk ≡ ok tt
verify-append_example =
    verify-append formats formats-IsFaithful empty_ledger one_ledger event first_record
      empty_verified appended

commit_fault-fail_closed_example :
    ((append formats commit_fault empty_ledger event).0.disk.rows ≡ [])
    × (append formats no_fault (append formats commit_fault empty_ledger event).0 event
        ≡ ((append formats commit_fault empty_ledger event).0, err divergence))
commit_fault-fail_closed_example =
    commit_fault-fail_closed formats formats-IsFaithful empty_ledger one_ledger event event
      first_record no_fault appended (λ h. cc)

count_zero : count_policy_auto_writes_since formats [] "alice" "pc" 0 ≡ ok 0
unfolding count_policy_auto_writes_since window_events
count_zero = refl

row_verified : verify_rows formats zero_hash (first_row ∷ []) ≡ ok (first_record ∷ [])
unfolding verify_rows hash_record u64_be_bytes utf8
row_verified = refl

checksum_size : (m : List ℕ) → length (checksum m) ≡ 32
checksum_size m = refl

first_row-IsU64 : IsU64 first_row
unfolding IsU64
first_row-IsU64 = ground arith

last_hash_pins_rows_example : ((first_row ∷ []) ≡ (first_row ∷ [])) ⊎ IsBroken formats
last_hash_pins_rows_example =
    last_hash_pins_rows formats checksum_size (first_row ∷ []) (first_row ∷ []) (first_record ∷ [])
      (first_record ∷ []) row_verified row_verified (first_row-IsU64, tt) (first_row-IsU64, tt) refl

abbrev claimed_key : Key
claimed_key = record { request_id = "r1"; digest = write_request.envelope_digest }

abbrev other_key : Key
other_key = record { request_id = "r2"; digest = write_request.envelope_digest }

claim_empty : (claim_approval_consumed claimed_key 5 empty_disk).1 ≡ ok true
unfolding claim_approval_consumed find_row
claim_empty = refl

one_shot_example :
    (claim_approval_consumed claimed_key 9 (
      run_calls
        (set_state claimed_key completed 6 ∷ claim other_key 7 ∷ [])
        (claim_approval_consumed claimed_key 5 empty_disk).0)).1
    ≡ ok false
one_shot_example =
    one_shot claimed_key 5 9 empty_disk (set_state claimed_key completed 6 ∷ claim other_key 7 ∷ [])
      claim_empty (ground arith)

abbrev applied_disk : Disk
applied_disk = record empty_disk { executions = (claimed_key, ("effect_applied", 5)) ∷ [] }

applied-IsAtLeast : IsAtLeast 2 claimed_key applied_disk
unfolding IsAtLeast execution_recovery_state parse_state find_row utf8
applied-IsAtLeast = (effect_applied, refl, ground arith)

never_back_example : IsAtLeast 2 claimed_key (
    run_calls
      (set_state claimed_key not_executed 6 ∷ set_state claimed_key completed 7 ∷ [])
      applied_disk)
never_back_example =
    never_back (set_state claimed_key not_executed 6 ∷ set_state claimed_key completed 7 ∷ []) 2
      claimed_key applied_disk applied-IsAtLeast
