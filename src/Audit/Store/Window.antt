-- ===== src/Audit/Store/Window.antt =====
-- The rate window of crates/vor-audit/src/lib.rs: what an append adds to the count and to the sum.
use vor_commander.Base.{
  ℕ, ◌+◌, ◌^◌, ◌<◌, ◌≡◌, sym, ◌∙◌, ap, String, false, some, List, [], ◌∷◌, ◌++◌, if◌then◌else◌, ok,
  ok_or, ◌>>=◌, leb, arith, inl, inr, length, length-append, >>=-eq-ok, reject_if-eq-ok,
  ok_or-eq-ok, Bool-cases,
}
use vor_commander.Audit.Types.{AuditEvent, AuditRecord, Row, invalid_sequence, sqlite, Formats}
use vor_commander.Audit.Store.{
  Ledger, no_fault, append, in_window, window_events, count_policy_auto_writes_since,
}
use vor_commander.Audit.Store.Chain.{IsFaithful}
use vor_commander.Audit.Store.Integrity.{append-eq-ok, IsAppended}

module _ (x : Formats) (actor_id device_id : String) (since : ℕ) where
  -- the events that an append puts behind those of the window
  abbrev added : AuditEvent → List AuditEvent
  added event = if in_window x actor_id device_id since event then event ∷ [] else []

  window_events-append :
      (rows : List Row) (r : Row) (event : AuditEvent) (events : List AuditEvent)
      → window_events x rows actor_id device_id since ≡ ok events
      → x.event_from_json r.event_json ≡ some event
      → window_events x (rows ++ (r ∷ [])) actor_id device_id since ≡ ok (events ++ added event)
  unfolding window_events
  window_events-append [] r event events h p = ground (arith, h, p)
  window_events-append (q ∷ rows) r event events h p =
      let (e, parsed, h1) = >>=-eq-ok (ok_or (x.event_from_json q.event_json) sqlite) _ h in
      let (rest, read, h2) = >>=-eq-ok (window_events x rows actor_id device_id since) _ h1 in
      let found = ok_or-eq-ok _ _ parsed in
      let more = window_events-append rows r event rest read p in
      elim (Bool-cases (in_window x actor_id device_id since e)) [
        | inl b ↦ rw (found, more, b) (ap (λ r. r >>= λ es. ok (es ++ added event)) (rw b at h2))
        | inr b ↦ rw (found, more, b) (ap (λ r. r >>= λ es. ok (es ++ added event)) (rw b at h2))
      ]

  window-append :
      IsFaithful x
      → (l l' : Ledger) (event : AuditEvent) (entry : AuditRecord) (events : List AuditEvent)
      → append x no_fault l event ≡ (l', ok entry)
      → window_events x l.disk.rows actor_id device_id since ≡ ok events
      → window_events x l'.disk.rows actor_id device_id since ≡ ok (events ++ added event)
  window-append faithful l l' event entry events h read =
      let a : IsAppended x l l' event entry = append-eq-ok x l l' event entry h in
      rw a.rows (
        window_events-append l.disk.rows a.row event events read
          (faithful.event event a.row.event_json a.event_json))

  count-eq-ok :
      (rows : List Row) (n : ℕ)
      → count_policy_auto_writes_since x rows actor_id device_id since ≡ ok n
      → (events : List AuditEvent) × (window_events x rows actor_id device_id since ≡ ok events)
        × (n ≡ length events)
        × (leb (2 ^ 63) since ≡ false)
  unfolding count_policy_auto_writes_since
  count-eq-ok rows n h =
      let (early, h1) = reject_if-eq-ok (leb (2 ^ 63) since) invalid_sequence _ h in
      let (events, read, h2) = >>=-eq-ok (window_events x rows actor_id device_id since) _ h1 in
      let (_, h3) = reject_if-eq-ok (leb (2 ^ 32) (length events)) invalid_sequence _ h2 in
      (events, read, ground (arith, h3), early)

  count-ok :
      (rows : List Row) (events : List AuditEvent)
      → window_events x rows actor_id device_id since ≡ ok events
      → leb (2 ^ 63) since ≡ false
      → length events < 2 ^ 32
      → count_policy_auto_writes_since x rows actor_id device_id since ≡ ok (length events)
  unfolding count_policy_auto_writes_since
  count-ok rows events read early fits =
      let small : leb (2 ^ 32) (length events) ≡ false = ground (arith, fits) in
      rw (early, read, small)

  -- The count of a window after an append: one more where the event is an automatic write of that
  -- actor and device in the window, and the same where it is not.
  pub count-append :
      IsFaithful x
      → (l l' : Ledger) (event : AuditEvent) (entry : AuditRecord) (n : ℕ)
      → append x no_fault l event ≡ (l', ok entry)
      → count_policy_auto_writes_since x l.disk.rows actor_id device_id since ≡ ok n
      → n + 1 < 2 ^ 32
      → count_policy_auto_writes_since x l'.disk.rows actor_id device_id since
        ≡ ok (if in_window x actor_id device_id since event then n + 1 else n)
  count-append faithful l l' event entry n h counted fits =
      let (events, read, size, early) = count-eq-ok l.disk.rows n counted in
      let more = window-append faithful l l' event entry events h read in
      elim (Bool-cases (in_window x actor_id device_id since event)) [
        | inl b ↦
            let grown : length (events ++ (event ∷ [])) ≡ n + 1 =
              length-append events (event ∷ []) ∙ ap (λ m. m + 1) (sym size) in
            rw b (count-ok l'.disk.rows _ (rw b at more) early (rw grown fits) ∙ ap ok grown)
        | inr b ↦
            let same : length (events ++ []) ≡ n = length-append events [] ∙ ground (arith, size) in
            rw b (
              count-ok l'.disk.rows _ (rw b at more) early (rw same (ground (arith, fits)))
              ∙ ap ok same)
      ]
