-- ===== src/Audit/Store/Faults.antt =====
-- `append` of crates/vor-audit/src/lib.rs where SQLite's commit fails after the line is written.
use vor_commander.Base.{
  ℕ, ◌+◌, ◌≡◌, ◌≢◌, refl, ap, false, Option, none, some, List, [], ◌∷◌, ◌++◌, ok, err, get_last?,
  arith, Result-cases, inl, inr,
}
use vor_commander.Base.Text.{Text}
use vor_commander.Protocol.{Digest32}
use vor_commander.Audit.Types.{AuditEvent, AuditRecord, Row, divergence, Formats}
use vor_commander.Audit.Store.{
  Disk, Ledger, Fault, no_fault, lock_fault, insert_fault, file_fault, commit_fault, release_fault,
  or_start, load_db_last, same_last, written, load_jsonl_last, current_last, prepare, append_line,
  append_after, append, Last,
}
use vor_commander.Audit.Store.Chain.{IsFaithful, written-append}
use vor_commander.Audit.Store.Integrity.{prepare-eq-ok, entry_at, current_last-start}

get_last-append {ℓ} : {A : Type ℓ} (xs : List A) (x : A) → get_last? (xs ++ (x ∷ [])) ≡ some x
get_last-append [] x = refl
get_last-append (y ∷ []) x = refl
get_last-append (y ∷ (z ∷ xs)) x = get_last-append (z ∷ xs) x

same_last_apart :
    (o : Last) (n : ℕ) (p d : Digest32)
    → or_start o ≡ (n, p)
    → same_last o (some (n + 1, d)) ≡ false
same_last_apart none n p d h = refl
same_last_apart (some (m, e)) n p d h = ground (arith, ap (λ q. q.0) h)

module _ (x : Formats) (faithful : IsFaithful x) where
  load_jsonl_last-append :
      (file : Option (List Text)) (r : AuditRecord) (line : Text)
      → x.record_to_json r ≡ some line
      → load_jsonl_last x (append_line x file line) ≡ ok (some (r.sequence, r.record_hash))
  unfolding load_jsonl_last
  load_jsonl_last-append file r line h = rw (
    written-append x file line (faithful.line r line h),
    get_last-append (written file) line,
    faithful.entry r line h,
  )

  -- A disk whose file and database differ: `append` and `open` begin with this comparison.
  closed-append :
      (f : Fault) (l : Ledger) (event : AuditEvent)
      → current_last x l.disk ≡ err divergence
      → f ≢ lock_fault
      → append x f l event ≡ (l, err divergence)
  unfolding append
  closed-append no_fault l event h ne = rw h
  closed-append lock_fault l event h ne = absurd (ne refl)
  closed-append insert_fault l event h ne = rw h
  closed-append file_fault l event h ne = rw h
  closed-append commit_fault l event h ne = rw h
  closed-append release_fault l event h ne = rw h

  ahead-closed :
      (disk : Disk) (n : ℕ) (p : Digest32) (r : AuditRecord) (line : Text)
      → or_start (load_db_last disk.rows) ≡ (n, p)
      → r.sequence ≡ n + 1
      → x.record_to_json r ≡ some line
      → current_last x (record disk { jsonl = append_line x disk.jsonl line }) ≡ err divergence
  unfolding current_last
  ahead-closed disk n p r line start next h = rw (
    load_jsonl_last-append disk.jsonl r line h,
    next,
    same_last_apart (load_db_last disk.rows) n p r.record_hash start,
  )

  commit_fault-written :
      (l : Ledger) (event : AuditEvent) (n : ℕ) (p : Digest32) (out : AuditRecord × Row × Text)
      → or_start (load_db_last l.disk.rows) ≡ (n, p)
      → prepare x l.disk.rows (n + 1) p event ≡ ok out
      → let after = (append_after x commit_fault l event (ok (n, p))).0 in
        (after.disk.rows ≡ l.disk.rows) × (current_last x after.disk ≡ err divergence)
  commit_fault-written l event n p out start h =
      let (t, line, _, json, same, _) = prepare-eq-ok x l.disk.rows (n + 1) p event out h in
      rw (h, same)
        (refl, ahead-closed l.disk n p (entry_at x (n + 1) p t event) line start refl json)

  commit_fault-closes :
      (l l' : Ledger) (event : AuditEvent) (entry : AuditRecord)
      → append x no_fault l event ≡ (l', ok entry)
      → ((append x commit_fault l event).0.disk.rows ≡ l.disk.rows)
        × (current_last x (append x commit_fault l event).0.disk ≡ err divergence)
  unfolding append
  commit_fault-closes l l' event entry h = elim (Result-cases (current_last x l.disk)) [
    | inl ((n, p), e) ↦ elim (Result-cases (prepare x l.disk.rows (n + 1) p event)) [
      | inl (out, d) ↦
          rw e (commit_fault-written l event n p out (current_last-start x l.disk (n, p) e) d)
      | inr (_, d) ↦ absurd (ground (arith, ap (λ q. q.1) (rw (e, d) at h)))
    ]
    | inr (_, e) ↦ absurd (ground (arith, ap (λ q. q.1) (rw e at h)))
  ]

  -- Where the commit of an append fails that would have succeeded, the database keeps its rows, and
  -- every later append that gets the lock returns `divergence` and writes nothing.
  pub commit_fault-fail_closed :
      (l l' : Ledger) (event later : AuditEvent) (entry : AuditRecord) (f : Fault)
      → append x no_fault l event ≡ (l', ok entry)
      → f ≢ lock_fault
      → ((append x commit_fault l event).0.disk.rows ≡ l.disk.rows)
        × (append x f (append x commit_fault l event).0 later
            ≡ ((append x commit_fault l event).0, err divergence))
  commit_fault-fail_closed l l' event later entry f h ne =
      let (rows, closed) = commit_fault-closes l l' event entry h in
      (rows, closed-append f _ later closed ne)
