-- ===== src/Audit/Store.antt =====
-- `Ledger` of crates/vor-audit/src/lib.rs: opening, appending, verifying, and the queries. The
-- database and the JSONL file are one value, `Disk`; an operation that fails part way leaves what it
-- had written, and `Fault` says which call of the operating system or of SQLite fails.
pub mod Chain
pub mod Integrity
pub mod Tamper
pub mod Faults
pub mod Window
use mathlib.Core.Bool.{decide}
use native.Mathlib.Decide.{ℕ_discrete}
use vor_commander.Base.{
  ℕ, String, ◌+◌, ◌^◌, Bool, true, false, not, Option, none, some, List, [], ◌∷◌, ◌++◌, str_eq,
  ◌&&◌, ◌||◌, ◌==◌, leb, ltb, if◌then◌else◌, Result, ok, err, ok_or, ◌>>=◌, ◌>>◌, reject_if, any,
  filter, length, get_last?,
}
use vor_commander.Base.Text.{Text, codes, bytes, is_blank, text_eq}
use vor_commander.Protocol.{Digest32}
use vor_commander.Approval.{u64_be_bytes}
use vor_commander.Audit.Types.{
  AuditEvent, AuditRecord, Row, AuditError, divergence, hash_mismatch, invalid_sequence,
  lock_timeout, io, sqlite, json, Formats, AuditRecord-discrete,
}
use vor_commander.Audit.Table.{Key, Table, find_row, add_row}

-- The rows in the order of their primary key, the lines of the file if it exists, and the tables
-- `approval_consumptions` and `approval_executions`.
pub record Disk : Type 0 where
  pub rows : List Row
  pub jsonl : Option (List Text)
  pub consumptions : Table ℕ
  pub executions : Table (String × ℕ)

pub record Ledger : Type 0 where
  pub disk : Disk
  pub last_sequence : ℕ
  pub last_hash : Digest32

pub data Fault : Type 0 where
  no_fault lock_fault insert_fault file_fault commit_fault release_fault : Fault

abbrev pub zero_hash : Digest32
zero_hash =
    0 ∷ 0 ∷ 0 ∷ 0 ∷ 0 ∷ 0 ∷ 0 ∷ 0 ∷ 0 ∷ 0 ∷ 0 ∷ 0 ∷ 0 ∷ 0 ∷ 0 ∷ 0 ∷ 0 ∷ 0 ∷ 0 ∷ 0 ∷ 0 ∷ 0 ∷ 0 ∷ 0
    ∷ 0 ∷ 0 ∷ 0 ∷ 0 ∷ 0 ∷ 0 ∷ 0 ∷ 0 ∷ []

abbrev pub Last : Type 0
Last = Option (ℕ × Digest32)

abbrev pub same_last : Last → Last → Bool
same_last none none = true
same_last none (some b) = false
same_last (some a) none = false
same_last (some (m, d)) (some (n, e)) = m == n && text_eq d e

-- `unwrap_or((0, ZERO_HASH))`
abbrev pub or_start : Last → ℕ × Digest32
or_start none = (0, zero_hash)
or_start (some p) = p

abbrev pub row_last : Option Row → Last
row_last none = none
row_last (some r) = some (r.sequence, r.record_hash)

unfoldable pub load_db_last : List Row → Last
load_db_last rows = row_last (get_last? rows)

-- the lines that are not blank
abbrev pub written : Option (List Text) → List Text
written none = []
written (some lines) = filter (λ l. not (is_blank l)) lines

module _ (x : Formats) where
  abbrev pub read_last : Option Text → Result AuditError Last
  read_last none = ok none
  read_last (some line) = do
    r ← ok_or (x.record_from_json line) json
    ok (some (r.sequence, r.record_hash))

  unfoldable pub load_jsonl_last : Option (List Text) → Result AuditError Last
  load_jsonl_last file = read_last (get_last? (written file))

  abbrev pub read_records : List Text → Result AuditError (List AuditRecord)
  read_records [] = ok []
  read_records (l ∷ ls) = do
    r ← ok_or (x.record_from_json l) json
    rs ← read_records ls
    ok (r ∷ rs)

  unfoldable pub load_jsonl_records : Option (List Text) → Result AuditError (List AuditRecord)
  load_jsonl_records file = read_records (written file)

  unfoldable pub hash_record : ℕ → Digest32 → Text → Digest32
  hash_record sequence previous_hash payload =
      x.sha256 (previous_hash ++ (u64_be_bytes sequence ++ bytes payload))

  -- the comparison with which `open` and `append` begin
  unfoldable pub current_last : Disk → Result AuditError (ℕ × Digest32)
  current_last disk = do
    file_last ← load_jsonl_last disk.jsonl
    reject_if (not (same_last (load_db_last disk.rows) file_last)) divergence
    ok (or_start (load_db_last disk.rows))

  abbrev pub migrate_event : AuditEvent → Table ℕ → Result AuditError (Table ℕ)
  migrate_event event t =
      let k : Key = record { request_id = event.request_id; digest = event.envelope_digest } in
      if str_eq event.outcome "approval_consumed"
      then (do
        reject_if (leb (2 ^ 63) event.timestamp_unix_ms) invalid_sequence
        ok (elim (find_row k t) [ none ↦ add_row k event.timestamp_unix_ms t | some v ↦ t ]))
      else ok t

  abbrev pub migrate_or_stop :
      (Table ℕ → Table ℕ × Result AuditError (Unit {0}))
      → Table ℕ
      → Result AuditError (Table ℕ)
      → Table ℕ × Result AuditError (Unit {0})
  migrate_or_stop rest t (ok t') = rest t'
  migrate_or_stop rest t (err e) = (t, err e)

  -- `migrate_approval_consumptions`: what was inserted before an error stays
  unfoldable pub migrate_approval_consumptions :
      List Row → Table ℕ → Table ℕ × Result AuditError (Unit {0})
  migrate_approval_consumptions [] t = (t, ok tt)
  migrate_approval_consumptions (r ∷ rs) t =
      migrate_or_stop (migrate_approval_consumptions rs) t
        (do event ← ok_or (x.event_from_json r.event_json) json; migrate_event event t)

  unfoldable pub open_ledger : Disk → Disk × Result AuditError Ledger
  open_ledger disk =
      let (t, migrated) = migrate_approval_consumptions disk.rows disk.consumptions in
      let disk' : Disk = record disk { consumptions = t } in
      (
        disk',
        (do
          migrated
          last ← current_last disk'
          ok (record { disk = disk'; last_sequence = last.0; last_hash = last.1 })),
      )

  -- the record, its row and its line, before anything is written
  unfoldable pub prepare :
      List Row → ℕ → Digest32 → AuditEvent → Result AuditError (AuditRecord × Row × Text)
  prepare rows sequence previous event = do
    event_json ← ok_or (x.event_to_json event) json
    let record_hash = hash_record sequence previous event_json
    let entry : AuditRecord = record {
      sequence = sequence;
      previous_hash = previous;
      record_hash = record_hash;
      event = event;
    }
    line ← ok_or (x.record_to_json entry) json
    let row : Row = record {
      sequence = sequence;
      previous_hash = previous;
      record_hash = record_hash;
      event_json = event_json;
    }
    -- `record_hash TEXT NOT NULL UNIQUE`
    reject_if (any (λ (r : Row). text_eq r.record_hash record_hash) rows) sqlite
    ok (entry, row, line)

  abbrev pub append_line : Option (List Text) → Text → Option (List Text)
  append_line none line = some (line ∷ [])
  append_line (some lines) line = some (lines ++ (line ∷ []))

  abbrev pub write_prepared :
      Fault
      → Ledger
      → Result AuditError (AuditRecord × Row × Text)
      → Ledger × Result AuditError AuditRecord
  write_prepared fault l (err e) = (l, err e)
  write_prepared insert_fault l (ok (entry, row, line)) = (l, err sqlite)
  write_prepared file_fault l (ok (entry, row, line)) = (l, err io)
  write_prepared commit_fault l (ok (entry, row, line)) =
      (record l { disk = record l.disk { jsonl = append_line l.disk.jsonl line } }, err sqlite)
  write_prepared release_fault l (ok (entry, row, line)) = (
    record l {
      disk = record l.disk {
        rows = l.disk.rows ++ (row ∷ []);
        jsonl = append_line l.disk.jsonl line;
      };
    },
    err lock_timeout,
  )
  write_prepared _ l (ok (entry, row, line)) = (
    record {
      disk = record l.disk {
        rows = l.disk.rows ++ (row ∷ []);
        jsonl = append_line l.disk.jsonl line;
      };
      last_sequence = entry.sequence;
      last_hash = entry.record_hash;
    },
    ok entry,
  )

  abbrev pub append_after :
      Fault
      → Ledger
      → AuditEvent
      → Result AuditError (ℕ × Digest32)
      → Ledger × Result AuditError AuditRecord
  append_after fault l event (err e) = (l, err e)
  append_after fault l event (ok (sequence, hash)) =
      write_prepared fault (record l { last_sequence = sequence; last_hash = hash })
        (prepare l.disk.rows (sequence + 1) hash event)

  unfoldable pub append : Fault → Ledger → AuditEvent → Ledger × Result AuditError AuditRecord
  append lock_fault l event = (l, err lock_timeout)
  append fault l event = append_after fault l event (current_last l.disk)

  -- the loop of `verify_integrity`, with the hash of the row before
  unfoldable pub verify_rows : Digest32 → List Row → Result AuditError (List AuditRecord)
  verify_rows previous [] = ok []
  verify_rows previous (r ∷ rs) = do
    reject_if
        (not (text_eq r.previous_hash previous)
          || not (text_eq (hash_record r.sequence previous r.event_json) r.record_hash))
        (hash_mismatch r.sequence)
    event ← ok_or (x.event_from_json r.event_json) json
    rest ← verify_rows r.record_hash rs
    ok (
        record {
          sequence = r.sequence;
          previous_hash = previous;
          record_hash = r.record_hash;
          event = event;
        }
        ∷ rest)

  unfoldable pub same_records : List AuditRecord → List AuditRecord → Bool
  same_records [] [] = true
  same_records [] (b ∷ bs) = false
  same_records (a ∷ xs) [] = false
  same_records (a ∷ xs) (b ∷ bs) = decide (AuditRecord-discrete a b) && same_records xs bs

  unfoldable pub verify_integrity : Disk → Result AuditError (Unit {0})
  verify_integrity disk = do
    db_records ← verify_rows zero_hash disk.rows
    file_records ← load_jsonl_records disk.jsonl
    reject_if (not (same_records db_records file_records)) divergence
    ok tt

  abbrev pub is_outcome : Key → String → AuditEvent → Bool
  is_outcome k outcome event =
      str_eq event.request_id k.request_id
      && text_eq event.envelope_digest k.digest
      && str_eq event.outcome outcome

  -- `has_outcome_for`: it stops at the first match, and at the first event that does not parse
  unfoldable pub has_outcome_for : List Row → Key → String → Result AuditError Bool
  has_outcome_for [] k outcome = ok false
  has_outcome_for (r ∷ rs) k outcome = do
    event ← ok_or (x.event_from_json r.event_json) json
    let rest = has_outcome_for rs k outcome
    if is_outcome k outcome event then ok true else rest

  -- the filter that the two window queries share
  unfoldable pub in_window : String → String → ℕ → AuditEvent → Bool
  in_window actor_id device_id since event =
      str_eq event.actor_id actor_id
      && str_eq event.device_id device_id
      && str_eq event.action "filesystem.write"
      && str_eq event.outcome "auto"
      && str_eq event.authority "policy"
      && leb since event.timestamp_unix_ms

  -- SQLite's `json_extract` over every row; a row that is no JSON fails the query
  unfoldable pub window_events :
      List Row → String → String → ℕ → Result AuditError (List AuditEvent)
  window_events [] actor_id device_id since = ok []
  window_events (r ∷ rs) actor_id device_id since = do
    event ← ok_or (x.event_from_json r.event_json) sqlite
    rest ← window_events rs actor_id device_id since
    ok (if in_window actor_id device_id since event then event ∷ rest else rest)

  abbrev pub total_bytes : List AuditEvent → ℕ
  total_bytes [] = 0
  total_bytes (e ∷ es) = e.content_bytes + total_bytes es

  unfoldable pub count_policy_auto_writes_since :
      List Row → String → String → ℕ → Result AuditError ℕ
  count_policy_auto_writes_since rows actor_id device_id since = do
    reject_if (leb (2 ^ 63) since) invalid_sequence
    events ← window_events rows actor_id device_id since
    reject_if (leb (2 ^ 32) (length events)) invalid_sequence
    ok (length events)

  -- SQLite's `SUM` of integers fails where it leaves the range of an `i64`
  unfoldable pub sum_policy_auto_write_bytes_since :
      List Row → String → String → ℕ → Result AuditError ℕ
  sum_policy_auto_write_bytes_since rows actor_id device_id since = do
    reject_if (leb (2 ^ 63) since) invalid_sequence
    events ← window_events rows actor_id device_id since
    reject_if (leb (2 ^ 63) (total_bytes events)) sqlite
    ok (total_bytes events)
