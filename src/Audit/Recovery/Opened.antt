-- ===== src/Audit/Recovery/Opened.antt =====
-- `Ledger::open` of crates/vor-audit/src/lib.rs, with its migration, forgets no consumption.
use vor_commander.Base.{
  ℕ, ◌≡◌, Bool, true, false, Option, none, some, List, [], ◌∷◌, Result, ok, err, leb, ok_or, ◌>>=◌,
  ◌>>◌, reject_if, ◌^◌, str_eq, if◌then◌else◌, arith, inl, inr, Bool-cases, >>=-eq-ok,
}
use vor_commander.Audit.Types.{AuditEvent, AuditError, Row, Formats, json, invalid_sequence}
use vor_commander.Audit.Table.{Key, Table, find_row, add_row, find-add, key_eq}
use vor_commander.Audit.Store.{
  Disk, Ledger, migrate_event, migrate_or_stop, migrate_approval_consumptions, open_ledger,
  current_last,
}
use vor_commander.Audit.Recovery.OneShot.{IsConsumed}

-- a table that has a row for the key
abbrev HasRow : Key → Table ℕ → Type 0
HasRow k t = (v : ℕ) × (find_row k t ≡ some v)

HasRow-add : (k j : Key) (v : ℕ) (t : Table ℕ) → HasRow k t → HasRow k (add_row j v t)
HasRow-add k j v t (w, h) = elim (Bool-cases (key_eq j k)) [
  | inl e ↦ (v, ground (arith, find-add j k v t, e))
  | inr e ↦ (w, ground (arith, find-add j k v t, e, h))
]

HasRow-added :
    (k j : Key) (v : ℕ) (t : Table ℕ) (found : Option ℕ)
    → HasRow k t
    → HasRow k (elim found [ none ↦ add_row j v t | some w ↦ t ])
HasRow-added k j v t none h = HasRow-add k j v t h
HasRow-added k j v t (some w) h = h

abbrev Rowed : Key → Result AuditError (Table ℕ) → Type 0
Rowed k (ok t) = HasRow k t
Rowed k (err e) = Unit {0}

Rowed-if :
    (k : Key) (consumed late : Bool) (t t' : Table ℕ)
    → HasRow k t
    → HasRow k t'
    → Rowed k (if consumed then (reject_if late invalid_sequence >> ok t') else ok t)
Rowed-if k false late t t' h h' = h
Rowed-if k true true t t' h h' = tt
Rowed-if k true false t t' h h' = h'

module _ (x : Formats) where
  Rowed-migrate_event :
      (k : Key) (event : AuditEvent) (t : Table ℕ) → HasRow k t → Rowed k (migrate_event x event t)
  Rowed-migrate_event k event t h =
      let j : Key = record { request_id = event.request_id; digest = event.envelope_digest } in
      Rowed-if k (str_eq event.outcome "approval_consumed") (leb (2 ^ 63) event.timestamp_unix_ms) t
        (elim (find_row j t) [ none ↦ add_row j event.timestamp_unix_ms t | some v ↦ t ]) h
        (HasRow-added k j event.timestamp_unix_ms t (find_row j t) h)

  HasRow-or_stop :
      (k : Key) (rest : Table ℕ → Table ℕ × Result AuditError (Unit {0})) (t : Table ℕ)
      (m : Result AuditError (Table ℕ))
      → ((t' : Table ℕ) → HasRow k t' → HasRow k (rest t').0)
      → HasRow k t
      → Rowed k m
      → HasRow k (migrate_or_stop x rest t m).0
  HasRow-or_stop k rest t (ok t') more h r = more t' r
  HasRow-or_stop k rest t (err e) more h r = h

  Rowed-read :
      (k : Key) (t : Table ℕ) (event : Option AuditEvent)
      → HasRow k t
      → Rowed k (ok_or event json >>= λ e. migrate_event x e t)
  Rowed-read k t none h = tt
  Rowed-read k t (some e) h = Rowed-migrate_event k e t h

  HasRow-migrate :
      (k : Key) (rows : List Row) (t : Table ℕ)
      → HasRow k t
      → HasRow k (migrate_approval_consumptions x rows t).0
  unfolding migrate_approval_consumptions
  HasRow-migrate k [] t h = h
  HasRow-migrate k (r ∷ rs) t h =
      HasRow-or_stop k (migrate_approval_consumptions x rs) t
        (ok_or (x.event_from_json r.event_json) json >>= λ e. migrate_event x e t)
        (HasRow-migrate k rs) h (Rowed-read k t (x.event_from_json r.event_json) h)

  pub open-IsConsumed :
      (k : Key) (disk : Disk) → IsConsumed k disk → IsConsumed k (open_ledger x disk).0
  unfolding IsConsumed open_ledger
  open-IsConsumed k disk h = HasRow-migrate k disk.rows disk.consumptions h

  -- a ledger that opens has the disk that the migration leaves
  pub open-eq-ok :
      (disk : Disk) (l : Ledger) → (open_ledger x disk).1 ≡ ok l → l.disk ≡ (open_ledger x disk).0
  unfolding open_ledger
  open-eq-ok disk l h =
      let (_, _, h1) =
        >>=-eq-ok (migrate_approval_consumptions x disk.rows disk.consumptions).1 _ h in
      let (last, _, h2) = >>=-eq-ok (current_last x _) _ h1 in ground (arith, h2)
