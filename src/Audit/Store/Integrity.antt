-- ===== src/Audit/Store/Integrity.antt =====
-- `append` and `verify_integrity` of crates/vor-audit/src/lib.rs: a chain that verifies still
-- verifies after an append.
use vor_commander.Base.{
  ℕ, ◌+◌, ◌≡◌, ◌↔◌, refl, sym, ◌∙◌, ap, false, not, some, List, [], ◌∷◌, ◌++◌, ok, ok_or, any,
  arith, inl, inr, Result-cases, >>=-eq-ok, reject_if-eq-ok, ok_or-eq-ok,
}
use vor_commander.Base.Text.{Text, text_eq}
use vor_commander.Protocol.{Digest32}
use vor_commander.Audit.Types.{AuditEvent, AuditRecord, Row, divergence, json, sqlite, Formats}
use vor_commander.Audit.Store.{
  Disk, Ledger, no_fault, zero_hash, same_last, or_start, load_db_last, written, load_jsonl_last,
  load_jsonl_records, hash_record, current_last, prepare, append_line, write_prepared, append_after,
  append, verify_rows, same_records, verify_integrity,
}
use vor_commander.Audit.Store.Chain.{
  IsFaithful, same_records→≡, same_records_refl, hash_after, start-hash_after, record_of, IsLink,
  verify_rows-append, read_records-append, written-append,
}

module _ (x : Formats) where
  abbrev pub entry_at : ℕ → Digest32 → Text → AuditEvent → AuditRecord
  entry_at n p t event = record {
    sequence = n;
    previous_hash = p;
    record_hash = hash_record x n p t;
    event = event;
  }

  abbrev pub row_at : ℕ → Digest32 → Text → Row
  row_at n p t = record {
    sequence = n;
    previous_hash = p;
    record_hash = hash_record x n p t;
    event_json = t;
  }

  -- What a successful append has written: the row, the line, and the record that both hold.
  pub record IsAppended (l l' : Ledger) (event : AuditEvent) (entry : AuditRecord) : Type 0 where
    pub row : Row
    pub line : Text
    pub rows : l'.disk.rows ≡ l.disk.rows ++ (row ∷ [])
    pub jsonl : l'.disk.jsonl ≡ append_line x l.disk.jsonl line
    pub entry_of_row : entry ≡ record_of x row event
    pub previous : row.previous_hash ≡ hash_after x zero_hash l.disk.rows
    pub hash : row.record_hash ≡ hash_record x row.sequence row.previous_hash row.event_json
    pub event_json : x.event_to_json event ≡ some row.event_json
    pub line_json : x.record_to_json entry ≡ some line

  pub prepare-eq-ok :
      (rows : List Row) (n : ℕ) (p : Digest32) (event : AuditEvent) (out : AuditRecord × Row × Text)
      → prepare x rows n p event ≡ ok out
      → (t : Text) × (line : Text) × (x.event_to_json event ≡ some t)
        × (x.record_to_json (entry_at n p t event) ≡ some line)
        × (out ≡ (entry_at n p t event, row_at n p t, line))
        × (any (λ (r : Row). text_eq r.record_hash (hash_record x n p t)) rows ≡ false)
  unfolding prepare
  prepare-eq-ok rows n p event out h =
      let (t, a, h1) = >>=-eq-ok (ok_or (x.event_to_json event) json) _ h in
      let (u, b, h2) = >>=-eq-ok (ok_or (x.record_to_json (entry_at n p t event)) json) _ h1 in
      let (fresh, h3) =
        reject_if-eq-ok (any (λ (r : Row). text_eq r.record_hash (hash_record x n p t)) rows) sqlite
          _ h2 in
      (t, u, ok_or-eq-ok _ _ a, ok_or-eq-ok _ _ b, cc, fresh)

  pub current_last-start :
      (disk : Disk) (last : ℕ × Digest32)
      → current_last x disk ≡ ok last
      → or_start (load_db_last disk.rows) ≡ last
  unfolding current_last
  current_last-start disk last h =
      let (a, _, h1) = >>=-eq-ok (load_jsonl_last x disk.jsonl) _ h in
      let (_, h2) = reject_if-eq-ok (not (same_last (load_db_last disk.rows) a)) divergence _ h1 in
      ground (arith, h2)

  pub current_last-eq-ok :
      (disk : Disk) (n : ℕ) (p : Digest32)
      → current_last x disk ≡ ok (n, p)
      → p ≡ hash_after x zero_hash disk.rows
  unfolding load_db_last
  current_last-eq-ok disk n p h =
      ap (λ q. q.1) (sym (current_last-start disk (n, p) h)) ∙ start-hash_after x disk.rows

  append_after-eq-ok :
      (l l' : Ledger) (event : AuditEvent) (entry : AuditRecord) (n : ℕ) (p : Digest32)
      → p ≡ hash_after x zero_hash l.disk.rows
      → append_after x no_fault l event (ok (n, p)) ≡ (l', ok entry)
      → IsAppended l l' event entry
  append_after-eq-ok l l' event entry n p last h =
      elim (Result-cases (prepare x l.disk.rows (n + 1) p event)) [
        | inl (out, e) ↦
            let (t, line, a, b, same, _) = prepare-eq-ok l.disk.rows (n + 1) p event out e in
            let done : write_prepared x no_fault (record l { last_sequence = n; last_hash = p })
                  (ok (entry_at (n + 1) p t event, row_at (n + 1) p t, line))
                ≡ (l', ok entry) =
              rw (e, same) at h in
            let entry_eq : entry_at (n + 1) p t event ≡ entry =
              ground (arith, ap (λ q. q.1) done) in
            record {
              row = row_at (n + 1) p t;
              line = line;
              rows = ap (λ q. q.0.disk.rows) (sym done);
              jsonl = ap (λ q. q.0.disk.jsonl) (sym done);
              entry_of_row = sym entry_eq;
              previous = last;
              hash = refl;
              event_json = a;
              line_json = rw (← entry_eq) b;
            }
        | inr (_, e) ↦ cc (rw e at h)
      ]

  pub append-eq-ok :
      (l l' : Ledger) (event : AuditEvent) (entry : AuditRecord)
      → append x no_fault l event ≡ (l', ok entry)
      → IsAppended l l' event entry
  unfolding append
  append-eq-ok l l' event entry h = elim (Result-cases (current_last x l.disk)) [
    | inl ((n, p), e) ↦
        append_after-eq-ok l l' event entry n p (current_last-eq-ok l.disk n p e) (rw e at h)
    | inr (_, e) ↦ absurd (ground (arith, ap (λ q. q.1) (rw e at h)))
  ]

  pub verify_integrity_iff :
      (disk : Disk)
      → (verify_integrity x disk ≡ ok tt) ↔ (
          (recs : List AuditRecord) × (verify_rows x zero_hash disk.rows ≡ ok recs)
          × (load_jsonl_records x disk.jsonl ≡ ok recs))
  unfolding verify_integrity
  verify_integrity_iff disk = (
    (λ h.
        let (recs, a, h1) = >>=-eq-ok (verify_rows x zero_hash disk.rows) _ h in
        let (file, b, h2) = >>=-eq-ok (load_jsonl_records x disk.jsonl) _ h1 in
        let (same, _) = reject_if-eq-ok (not (same_records x recs file)) divergence _ h2 in
        (recs, a, b ∙ ap ok (sym (same_records→≡ x recs file (ground (arith, same)))))),
    (λ (recs, a, b). rw (a, b, same_records_refl x recs)),
  )

  -- An append to a ledger whose database and file verify, with no fault of the system, leaves a
  -- ledger that verifies again, where the JSON formats give back what they wrote.
  pub verify-append :
      IsFaithful x
      → (l l' : Ledger) (event : AuditEvent) (entry : AuditRecord)
      → verify_integrity x l.disk ≡ ok tt
      → append x no_fault l event ≡ (l', ok entry)
      → verify_integrity x l'.disk ≡ ok tt
  unfolding IsLink load_jsonl_records
  verify-append faithful l l' event entry verified h =
      let a : IsAppended l l' event entry = append-eq-ok l l' event entry h in
      let (recs, read, filed) = (verify_integrity_iff l.disk).0 verified in
      let parsed = faithful.event event a.row.event_json a.event_json in
      (verify_integrity_iff l'.disk).1 (
        recs ++ (entry ∷ []),
        (rw (a.rows, a.entry_of_row)
            (verify_rows-append x l.disk.rows zero_hash recs a.row event read (
              a.previous,
              a.hash ∙ ap (λ q. hash_record x a.row.sequence q a.row.event_json) a.previous,
              parsed,
            ))),
        (rw (a.jsonl, written-append x l.disk.jsonl a.line (faithful.line entry a.line a.line_json))
            (read_records-append x (written l.disk.jsonl) recs a.line entry filed
              (faithful.entry entry a.line a.line_json))),
      )
