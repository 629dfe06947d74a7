-- ===== src/Audit/Recovery/Forward.antt =====
-- `set_execution_recovery_state` of crates/vor-audit/src/lib.rs: an execution's state only moves on.
use vor_commander.Base.{
  ℕ, String, ◌^◌, ◌<◌, ◌≤◌, ◌≡◌, ◌↔◌, ◌>>=◌, refl, ◌∙◌, true, false, Option, none, some, List, [],
  ◌∷◌, ltb, leb, ok, err, ok_or, arith, ◌⊎◌, inl, inr, Bool-cases, Result-cases, >>=-eq-ok,
  reject_if-eq-ok, ok_or-eq-ok,
}
use vor_commander.Audit.Types.{invalid_execution_transition, missing_execution_state}
use vor_commander.Audit.Table.{
  Key, Table, find_row, update_row, key_eq, key_eq_refl, key_eq→≡, find-update, find-add,
}
use vor_commander.Audit.Store.{Disk}
use vor_commander.Audit.Recovery.OneShot.{
  Call, claim, set_state, run_call, run_calls, IsClaim-cases,
}
use vor_commander.Audit.Recovery.{
  ExecutionRecoveryState, not_executed, effect_uncertain, effect_applied, post_effect_uncertain,
  completed, as_str, parse_state, parse_found, rank, checked_time, set_execution_recovery_state,
  next_executions, execution_recovery_state, claim_approval_consumed,
}

parse-as_str : (s : ExecutionRecoveryState) → parse_state (as_str s) ≡ ok s
unfolding parse_state as_str
parse-as_str not_executed = refl
parse-as_str effect_uncertain = refl
parse-as_str effect_applied = refl
parse-as_str post_effect_uncertain = refl
parse-as_str completed = refl

-- the last step of an update, once its time fits in an `i64`
next-written :
    (now : ℕ) (f : ℕ → Table (String × ℕ)) (u : Table (String × ℕ))
    → (checked_time now >>= λ n. ok (f n)) ≡ ok u
    → (u ≡ f now) × (now < 2 ^ 63)
next-written now f u h = elim (Bool-cases (leb (2 ^ 63) now)) [
  | inl e ↦ ground (arith, e)
  | inr e ↦ ground (arith, e)
]

parse_found-eq-ok :
    (o : Option (String × ℕ)) {s : ExecutionRecoveryState}
    → parse_found o ≡ ok (some s)
    → (v : String × ℕ) × (o ≡ some v) × (parse_state v.0 ≡ ok s)
parse_found-eq-ok none h = cc
parse_found-eq-ok (some (text, t)) h =
    let (s, p, q) = >>=-eq-ok (parse_state text) _ h in ((text, t), refl, ground (arith, p, q))

-- What an accepted update has read and written.
pub next-eq-ok :
    (k : Key) (s : ExecutionRecoveryState) (now : ℕ) (t u : Table (String × ℕ))
    → next_executions k s now t ≡ ok u
    → (current : String × ℕ) × (find_row k t ≡ some current)
      × (old : ExecutionRecoveryState) × (parse_state current.0 ≡ ok old)
      × (rank old ≤ rank s)
      × (u ≡ update_row k (as_str s, now) t)
      × (now < 2 ^ 63)
unfolding next_executions
next-eq-ok k s now t u h =
    let (current, found, h1) = >>=-eq-ok (ok_or (find_row k t) missing_execution_state) _ h in
    let (old, parsed, h2) = >>=-eq-ok (parse_state current.0) _ h1 in
    let (le, h3) = reject_if-eq-ok (ltb (rank s) (rank old)) invalid_execution_transition _ h2 in
    (
      current,
      ok_or-eq-ok _ _ found,
      old,
      parsed,
      (ground (arith, le)),
      (next-written now _ u h3).0,
      (next-written now _ u h3).1,
    )

-- The state of a key's execution is on the disk, and has this rank or a later one.
unfoldable pub IsAtLeast : ℕ → Key → Disk → Type 0
IsAtLeast n k disk =
    (s : ExecutionRecoveryState) × (execution_recovery_state k disk ≡ ok (some s)) × (n ≤ rank s)

pub set-forward :
    (k : Key) (s : ExecutionRecoveryState) (now : ℕ) (disk : Disk)
    → (set_execution_recovery_state k s now disk).1 ≡ ok tt
    → (execution_recovery_state k (set_execution_recovery_state k s now disk).0 ≡ ok (some s))
      × (old : ExecutionRecoveryState) × (execution_recovery_state k disk ≡ ok (some old))
      × (rank old ≤ rank s)
      × (now < 2 ^ 63)
unfolding set_execution_recovery_state execution_recovery_state
set-forward k s now disk h = elim (Result-cases (next_executions k s now disk.executions)) [
  | inl (u, e) ↦
      let (v, found, old, parsed, le, written, fits) = next-eq-ok k s now disk.executions u e in
      (
        (rw (
          e,
          written,
          find-update k k (as_str s, now) disk.executions,
          key_eq_refl k,
          found,
          parse-as_str s,
        )),
        old,
        (rw (found, parsed)),
        le,
        fits,
      )
  | inr (x, e) ↦ cc (rw (e) at h)
]

set-rejects :
    (k : Key) (s old : ExecutionRecoveryState) (now : ℕ) (disk : Disk)
    → execution_recovery_state k disk ≡ ok (some old)
    → rank s < rank old
    → set_execution_recovery_state k s now disk ≡ (disk, err invalid_execution_transition)
unfolding set_execution_recovery_state execution_recovery_state next_executions
set-rejects k s old now disk h b =
    let (v, found, parsed) = parse_found-eq-ok _ h in
    let e : ltb (rank s) (rank old) ≡ true = ground (arith, b) in rw (found, parsed, e)

set-succeeds :
    (k : Key) (s old : ExecutionRecoveryState) (now : ℕ) (disk : Disk)
    → execution_recovery_state k disk ≡ ok (some old)
    → rank old ≤ rank s
    → now < 2 ^ 63
    → (set_execution_recovery_state k s now disk).1 ≡ ok tt
unfolding set_execution_recovery_state execution_recovery_state next_executions
set-succeeds k s old now disk h b c =
    let (v, found, parsed) = parse_found-eq-ok _ h in
    let e : ltb (rank s) (rank old) ≡ false = ground (arith, b) in
    let d : leb (2 ^ 63) now ≡ false = ground (arith, c) in rw (found, parsed, e, d)

set-other :
    (k j : Key) (s : ExecutionRecoveryState) (now : ℕ) (disk : Disk)
    → key_eq j k ≡ false
    → execution_recovery_state k (set_execution_recovery_state j s now disk).0
      ≡ execution_recovery_state k disk
unfolding set_execution_recovery_state execution_recovery_state
set-other k j s now disk ne = elim (Result-cases (next_executions j s now disk.executions)) [
  | inl (u, e) ↦
      let (v, found, old, parsed, le, written, _) = next-eq-ok j s now disk.executions u e in
      rw (e, written, find-update j k (as_str s, now) disk.executions, ne)
  | inr (x, e) ↦ rw e
]

set-cases :
    (k : Key) (s : ExecutionRecoveryState) (now : ℕ) (disk : Disk)
    → ((set_execution_recovery_state k s now disk).1 ≡ ok tt)
      ⊎ ((set_execution_recovery_state k s now disk).0 ≡ disk)
unfolding set_execution_recovery_state
set-cases k s now disk = elim (Result-cases (next_executions k s now disk.executions)) [
  | inl (u, e) ↦ inl (rw e)
  | inr (x, e) ↦ inr (rw e)
]

set-IsAtLeast_same :
    (n : ℕ) (k : Key) (s : ExecutionRecoveryState) (now : ℕ) (disk : Disk)
    → IsAtLeast n k disk
    → IsAtLeast n k (set_execution_recovery_state k s now disk).0
unfolding IsAtLeast
set-IsAtLeast_same n k s now disk (cur, h, le) = elim (set-cases k s now disk) [
  | inl e ↦
      let (new, old, p, le', _) = set-forward k s now disk e in
      let same : rank cur ≡ rank old = ground (arith, h, p) in
      (s, new, (ground (arith, le, le', same)))
  | inr e ↦ (cur, (rw e h), le)
]

set-IsAtLeast :
    (n : ℕ) (k j : Key) (s : ExecutionRecoveryState) (now : ℕ) (disk : Disk)
    → IsAtLeast n k disk
    → IsAtLeast n k (set_execution_recovery_state j s now disk).0
unfolding IsAtLeast
set-IsAtLeast n k j s now disk (cur, h, le) = elim (Bool-cases (key_eq j k)) [
  | inl e ↦ rw (key_eq→≡ j k e) (set-IsAtLeast_same n k s now disk (cur, h, le))
  | inr e ↦ (cur, set-other k j s now disk e ∙ h, le)
]

claim-IsAtLeast :
    (n : ℕ) (k j : Key) (now : ℕ) (disk : Disk)
    → IsAtLeast n k disk
    → IsAtLeast n k (claim_approval_consumed j now disk).0
unfolding IsAtLeast execution_recovery_state
claim-IsAtLeast n k j now disk (cur, h, le) = elim (IsClaim-cases j now disk) [
  | inl (same, _) ↦ (cur, (rw (same) h), le)
  | inr (t, _, _, absent, added, _) ↦ (
    cur,
    (rw (added, find-add j k ("not_executed", t) disk.executions)
        (elim (Bool-cases (key_eq j k)) [
          | inl e ↦ ground (arith, h, absent, key_eq→≡ j k e)
          | inr e ↦ rw e h
        ])),
    le,
  )
]

-- A recorded execution state never goes back and is never lost: whatever claims and state changes
-- follow, the state that is read later is there and has the same rank or a higher one.
pub never_back :
    (cs : List Call) (n : ℕ) (k : Key) (disk : Disk)
    → IsAtLeast n k disk
    → IsAtLeast n k (run_calls cs disk)
unfolding run_calls run_call
never_back [] n k disk h = h
never_back (claim j now ∷ cs) n k disk h = never_back cs n k _ (claim-IsAtLeast n k j now disk h)
never_back (set_state j s now ∷ cs) n k disk h =
    never_back cs n k _ (set-IsAtLeast n k j s now disk h)

-- A state change succeeds exactly when a state is recorded for the key, the new one has the same rank
-- or a higher one, and the time fits in an `i64`.
pub set_ok_iff :
    (k : Key) (s : ExecutionRecoveryState) (now : ℕ) (disk : Disk)
    → ((set_execution_recovery_state k s now disk).1 ≡ ok tt) ↔ (
        (old : ExecutionRecoveryState) × (execution_recovery_state k disk ≡ ok (some old))
        × (rank old ≤ rank s)
        × (now < 2 ^ 63))
set_ok_iff k s now disk = (
  (λ h. let (_, old, p, le, b) = set-forward k s now disk h in (old, p, le, b)),
  (λ (old, p, le, b). set-succeeds k s old now disk p le b),
)
