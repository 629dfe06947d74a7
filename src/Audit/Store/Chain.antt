-- ===== src/Audit/Store/Chain.antt =====
-- `verify_integrity` of crates/vor-audit/src/lib.rs: what a chain of rows that verifies is.
use mathlib.Core.Bool.{decide, decide_iff}
use vor_commander.Base.{
  ◌≡◌, refl, sym, ◌∙◌, Bool, true, false, not, Option, none, some, List, [], ◌∷◌, ◌++◌, ◌||◌, ok,
  ok_or, get_last?, arith, >>=-eq-ok, reject_if-eq-ok, ok_or-eq-ok, &&-true,
}
use vor_commander.Base.Text.{Text, is_blank, text_eq, text_eq_refl, text_eq→≡}
use vor_commander.Protocol.{Digest32}
use vor_commander.Audit.Types.{
  AuditEvent, AuditRecord, Row, hash_mismatch, json, Formats, AuditRecord-discrete,
}
use vor_commander.Audit.Store.{
  zero_hash, or_start, row_last, written, read_records, hash_record, append_line, verify_rows,
  same_records,
}
use vor_commander.Base.Splitting.{filter-append}

-- What `serde_json` gives back of what it wrote: the value, and no blank line.
pub record IsFaithful (x : Formats) : Type 0 where
  pub event :
      (e : AuditEvent) (t : Text) → x.event_to_json e ≡ some t → x.event_from_json t ≡ some e
  pub entry :
      (r : AuditRecord) (t : Text) → x.record_to_json r ≡ some t → x.record_from_json t ≡ some r
  pub line : (r : AuditRecord) (t : Text) → x.record_to_json r ≡ some t → is_blank t ≡ false

module _ (x : Formats) where
  pub same_records→≡ : (a b : List AuditRecord) → same_records x a b ≡ true → a ≡ b
  unfolding same_records
  same_records→≡ [] [] h = refl
  same_records→≡ [] (b ∷ bs) h = cc
  same_records→≡ (a ∷ xs) [] h = cc
  same_records→≡ (a ∷ xs) (b ∷ bs) h =
      let (p, q) = &&-true (decide (AuditRecord-discrete a b)) (same_records x xs bs) h in
      ground (arith, (decide_iff (AuditRecord-discrete a b)).0 p, same_records→≡ xs bs q)

  pub same_records_refl : (a : List AuditRecord) → same_records x a a ≡ true
  unfolding same_records
  same_records_refl [] = refl
  same_records_refl (a ∷ xs) =
      rw ((decide_iff (AuditRecord-discrete a a)).1 refl, same_records_refl xs)

  -- the hash on which the next row builds
  abbrev pub hash_after : Digest32 → List Row → Digest32
  hash_after p [] = p
  hash_after p (r ∷ rs) = hash_after r.record_hash rs

  hash_after-last :
      (r : Row) (rows : List Row) (p : Digest32)
      → (or_start (row_last (get_last? (r ∷ rows)))).1 ≡ hash_after p (r ∷ rows)
  hash_after-last r [] p = refl
  hash_after-last r (q ∷ rows) p = hash_after-last q rows p

  pub start-hash_after :
      (rows : List Row) → (or_start (row_last (get_last? rows))).1 ≡ hash_after zero_hash rows
  start-hash_after [] = refl
  start-hash_after (r ∷ rows) = hash_after-last r rows zero_hash

  -- the record that a row is read as
  abbrev pub record_of : Row → AuditEvent → AuditRecord
  record_of r event = record {
    sequence = r.sequence;
    previous_hash = r.previous_hash;
    record_hash = r.record_hash;
    event = event;
  }

  abbrev pub bad_link : Digest32 → Row → Bool
  bad_link p r =
      not (text_eq r.previous_hash p)
      || not (text_eq (hash_record x r.sequence p r.event_json) r.record_hash)

  -- A row that follows the hash `p`, with the event it holds.
  unfoldable pub IsLink : Digest32 → Row → AuditEvent → Type 0
  IsLink p r event =
      (r.previous_hash ≡ p)
      × (r.record_hash ≡ hash_record x r.sequence p r.event_json)
      × (x.event_from_json r.event_json ≡ some event)

  pub verify_rows-eq-ok :
      (p : Digest32) (r : Row) (rows : List Row) (recs : List AuditRecord)
      → verify_rows x p (r ∷ rows) ≡ ok recs
      → (event : AuditEvent) × IsLink p r event
        × (rest : List AuditRecord) × (verify_rows x r.record_hash rows ≡ ok rest)
        × (recs ≡ record_of r event ∷ rest)
  unfolding verify_rows IsLink
  verify_rows-eq-ok p r rows recs h =
      let (good, h1) = reject_if-eq-ok (bad_link p r) (hash_mismatch r.sequence) _ h in
      let (event, parsed, h2) = >>=-eq-ok (ok_or (x.event_from_json r.event_json) json) _ h1 in
      let (rest, restored, h3) = >>=-eq-ok (verify_rows x r.record_hash rows) _ h2 in
      let prev : r.previous_hash ≡ p = text_eq→≡ _ _ (ground (arith, good)) in
      (
        event,
        (prev, sym (text_eq→≡ _ _ (ground (arith, good))), ok_or-eq-ok _ _ parsed),
        rest,
        restored,
        ground (arith, prev, h3),
      )

  pub verify_rows-link :
      (p : Digest32) (r : Row) (rows : List Row) (event : AuditEvent) (rest : List AuditRecord)
      → IsLink p r event
      → verify_rows x r.record_hash rows ≡ ok rest
      → verify_rows x p (r ∷ rows) ≡ ok (record_of r event ∷ rest)
  unfolding verify_rows IsLink
  verify_rows-link p r rows event rest (prev, hash, parsed) h =
      let good : bad_link p r ≡ false =
        rw (prev, ← hash, text_eq_refl p, text_eq_refl r.record_hash) in
      rw (good, parsed, h, prev)

  verify_rows_nil : (p : Digest32) → verify_rows x p [] ≡ ok []
  unfolding verify_rows
  verify_rows_nil p = refl

  verified_nil : (p : Digest32) (recs : List AuditRecord) → verify_rows x p [] ≡ ok recs → recs ≡ []
  unfolding verify_rows
  verified_nil p recs h = ground (arith, h)

  pub verify_rows-append :
      (rows : List Row) (p : Digest32) (recs : List AuditRecord) (r : Row) (event : AuditEvent)
      → verify_rows x p rows ≡ ok recs
      → IsLink (hash_after p rows) r event
      → verify_rows x p (rows ++ (r ∷ [])) ≡ ok (recs ++ (record_of r event ∷ []))
  verify_rows-append [] p recs r event h link =
      rw (verified_nil p recs h)
        (verify_rows-link p r [] event [] link (verify_rows_nil r.record_hash))
  verify_rows-append (q ∷ rows) p recs r event h link =
      let (e, l, rest, restored, same) = verify_rows-eq-ok p q rows recs h in
      rw same (
        verify_rows-link p q _ e _ l
          (verify_rows-append rows q.record_hash rest r event restored link))

  pub read_records-append :
      (ls : List Text) (recs : List AuditRecord) (l : Text) (r : AuditRecord)
      → read_records x ls ≡ ok recs
      → x.record_from_json l ≡ some r
      → read_records x (ls ++ (l ∷ [])) ≡ ok (recs ++ (r ∷ []))
  read_records-append [] recs l r h p = ground (arith, h, p)
  read_records-append (k ∷ ls) recs l r h p =
      let (a, parsed, h1) = >>=-eq-ok (ok_or (x.record_from_json k) json) _ h in
      let (rest, read, h2) = >>=-eq-ok (read_records x ls) _ h1 in
      ground (arith, parsed, read, h2, read_records-append ls rest l r read p)

  pub written-append :
      (f : Option (List Text)) (l : Text)
      → is_blank l ≡ false
      → written (append_line x f l) ≡ written f ++ (l ∷ [])
  written-append none l h = rw h
  written-append (some ls) l h = filter-append (λ l. not (is_blank l)) ls (l ∷ []) ∙ rw h
