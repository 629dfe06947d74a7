-- ===== src/Audit/Recovery/OneShot.antt =====
-- `claim_approval_consumed` of crates/vor-audit/src/lib.rs: an approval is claimed once.
use vor_commander.Base.{
  ℕ, String, ◌^◌, ◌<◌, ◌≡◌, ◌≢◌, refl, Bool, true, false, Option, none, some, List, [], ◌∷◌, leb,
  Result, ok, err, arith, ◌⊎◌, inl, inr, Bool-cases, Result-cases, ap,
}
use vor_commander.Audit.Types.{AuditError}
use vor_commander.Audit.Table.{Key, find_row, add_row, key_eq, key_eq_refl, key_eq→≡, find-add}
use vor_commander.Audit.Store.{Disk}
use vor_commander.Audit.Recovery.{
  ExecutionRecoveryState, claim_approval_consumed, claim_at, claim_new, claim_seen, checked_time,
  set_execution_recovery_state, next_executions,
}

-- what the writers of the two tables do, one call after the other
pub data Call : Type 0 where
  claim : Key → ℕ → Call
  set_state : Key → ExecutionRecoveryState → ℕ → Call

unfoldable pub run_call : Call → Disk → Disk
run_call (claim k now) disk = (claim_approval_consumed k now disk).0
run_call (set_state k s now) disk = (set_execution_recovery_state k s now disk).0

unfoldable pub run_calls : List Call → Disk → Disk
run_calls [] disk = disk
run_calls (c ∷ cs) disk = run_calls cs (run_call c disk)

-- The consumption of a key is on the disk.
unfoldable pub IsConsumed : Key → Disk → Type 0
IsConsumed k disk = (v : ℕ) × (find_row k disk.consumptions ≡ some v)

-- A claim leaves the disk as it was, or it adds its own row and says so.
abbrev pub IsClaim : Key → Disk → Disk × Result AuditError Bool → Type 0
IsClaim k disk r =
    ((r.0 ≡ disk) × (r.1 ≢ ok true))
    ⊎ ((now : ℕ) × (find_row k disk.consumptions ≡ none)
        × (r.0.consumptions ≡ add_row k now disk.consumptions)
        × (find_row k disk.executions ≡ none)
        × (r.0.executions ≡ add_row k ("not_executed", now) disk.executions)
        × (r.1 ≡ ok true))

claim_new-cases :
    (k : Key) (now : ℕ) (disk : Disk) (o : Option (String × ℕ))
    → find_row k disk.consumptions ≡ none
    → find_row k disk.executions ≡ o
    → IsClaim k disk (claim_new k now disk o)
claim_new-cases k now disk none p q = inr (now, p, refl, q, refl, refl)
claim_new-cases k now disk (some v) p q = inl (refl, (λ e. cc))

claim_seen-cases :
    (k : Key) (now : ℕ) (disk : Disk) (o : Option ℕ)
    → find_row k disk.consumptions ≡ o
    → IsClaim k disk (claim_seen k now disk o)
claim_seen-cases k now disk none p = claim_new-cases k now disk _ p refl
claim_seen-cases k now disk (some v) p = inl (refl, (λ e. ground arith))

claim_at-cases :
    (k : Key) (disk : Disk) (m : Result AuditError ℕ) → IsClaim k disk (claim_at k disk m)
claim_at-cases k disk (err e) = inl (refl, (λ p. cc))
claim_at-cases k disk (ok now) = claim_seen-cases k now disk _ refl

pub IsClaim-cases :
    (k : Key) (now : ℕ) (disk : Disk) → IsClaim k disk (claim_approval_consumed k now disk)
unfolding claim_approval_consumed
IsClaim-cases k now disk = claim_at-cases k disk (checked_time now)

pub claim-IsConsumed :
    (k j : Key) (now : ℕ) (disk : Disk)
    → IsConsumed k disk
    → IsConsumed k (claim_approval_consumed j now disk).0
unfolding IsConsumed
claim-IsConsumed k j now disk (v, h) = elim (IsClaim-cases j now disk) [
  | inl (same, _) ↦ (v, (rw same h))
  | inr (t, absent, added, _, _, _) ↦ (
    v,
    (rw (added, find-add j k t disk.consumptions)
        (elim (Bool-cases (key_eq j k)) [
          | inl e ↦ ground (arith, h, absent, key_eq→≡ j k e)
          | inr e ↦ rw e h
        ])),
  )
]

pub set_state-IsConsumed :
    (k j : Key) (s : ExecutionRecoveryState) (now : ℕ) (disk : Disk)
    → IsConsumed k disk
    → IsConsumed k (set_execution_recovery_state j s now disk).0
unfolding IsConsumed set_execution_recovery_state
set_state-IsConsumed k j s now disk (v, h) =
    elim (Result-cases (next_executions j s now disk.executions)) [
      | inl (t, e) ↦ (v, (rw e h))
      | inr (x, e) ↦ (v, (rw e h))
    ]

run_calls-IsConsumed :
    (cs : List Call) (k : Key) (disk : Disk) → IsConsumed k disk → IsConsumed k (run_calls cs disk)
unfolding run_calls run_call
run_calls-IsConsumed [] k disk h = h
run_calls-IsConsumed (claim j now ∷ cs) k disk h =
    run_calls-IsConsumed cs k _ (claim-IsConsumed k j now disk h)
run_calls-IsConsumed (set_state j s now ∷ cs) k disk h =
    run_calls-IsConsumed cs k _ (set_state-IsConsumed k j s now disk h)

pub claim_true-IsConsumed :
    (k : Key) (now : ℕ) (disk : Disk)
    → (claim_approval_consumed k now disk).1 ≡ ok true
    → IsConsumed k (claim_approval_consumed k now disk).0
unfolding IsConsumed
claim_true-IsConsumed k now disk h = elim (IsClaim-cases k now disk) [
  | inl (_, no_claim) ↦ ground (arith, no_claim h)
  | inr (t, _, added, _, _, _) ↦ (t, (rw (added, find-add k k t disk.consumptions, key_eq_refl k)))
]

pub IsConsumed-claim_true :
    (k : Key) (now : ℕ) (disk : Disk)
    → IsConsumed k disk
    → (claim_approval_consumed k now disk).1 ≢ ok true
unfolding IsConsumed
IsConsumed-claim_true k now disk (v, h) e = elim (IsClaim-cases k now disk) [
  | inl (_, no_claim) ↦ no_claim e
  | inr (t, absent, _, _, _, _) ↦ ground (arith, h, absent)
]

IsConsumed-claim :
    (k : Key) (now : ℕ) (disk : Disk)
    → IsConsumed k disk
    → now < 2 ^ 63
    → claim_approval_consumed k now disk ≡ (disk, ok false)
unfolding IsConsumed claim_approval_consumed
IsConsumed-claim k now disk (v, h) b =
    (let e : leb (2 ^ 63) now ≡ false = ground arith in rw (e, h))

-- After a claim of an approval has succeeded, whatever claims and state changes follow, claiming it
-- again answers `false`, at any time that fits in an `i64`.
pub one_shot :
    (k : Key) (now later : ℕ) (disk : Disk) (cs : List Call)
    → (claim_approval_consumed k now disk).1 ≡ ok true
    → later < 2 ^ 63
    → (claim_approval_consumed k later (run_calls cs (claim_approval_consumed k now disk).0)).1
      ≡ ok false
one_shot k now later disk cs h b =
    ap (λ r. r.1)
      (IsConsumed-claim k later _ (run_calls-IsConsumed cs k _ (claim_true-IsConsumed k now disk h))
        b)
