-- ===== src/Relay/Pending.antt =====
-- `PendingResultMap` of apps/vor-relay/src/lib.rs: by device and request id, the call that waits.
use vor_commander.Base.{
  ℕ, String, ◌≡◌, refl, Bool, true, Option, none, some, List, [], ◌∷◌, ◌&&◌, str_eq, eq_iff,
  if◌then◌else◌, arith,
}
use vor_commander.Base.Text.{is_some}

abbrev pub PendingKey : Type 0
PendingKey = String × String

abbrev pub same_key : PendingKey → PendingKey → Bool
same_key a b = str_eq a.0 b.0 && str_eq a.1 b.1

pub same_key→≡ : (a b : PendingKey) → same_key a b ≡ true → a ≡ b
same_key→≡ (a, x) (b, y) h =
    let p : a ≡ b = ground (arith, h, eq_iff a b) in
    let q : x ≡ y = ground (arith, h, eq_iff x y) in rw (p, q) refl

pub same_key_refl : (a : PendingKey) → same_key a a ≡ true
same_key_refl (a, x) = ground (arith, eq_iff a a, eq_iff x x)

-- each waiting call is named by a number; its `oneshot::Sender` is in the map
abbrev pub PendingResultMap : Type 0
PendingResultMap = List (PendingKey × ℕ)

unfoldable pub pending_at : PendingKey → PendingResultMap → Option ℕ
pending_at k [] = none
pending_at k ((j, n) ∷ m) = if same_key j k then some n else pending_at k m

-- `insert`, after the caller has seen that the key is not there
unfoldable pub insert_pending : PendingKey → ℕ → PendingResultMap → PendingResultMap
insert_pending k n m = (k, n) ∷ m

unfoldable pub remove_pending : PendingKey → PendingResultMap → PendingResultMap
remove_pending k [] = []
remove_pending k ((j, n) ∷ m) =
    let rest = remove_pending k m in if same_key j k then rest else (j, n) ∷ rest

abbrev pub contains_key : PendingKey → PendingResultMap → Bool
contains_key k m = is_some (pending_at k m)

pub pending-insert :
    (k j : PendingKey) (n : ℕ) (m : PendingResultMap)
    → pending_at j (insert_pending k n m) ≡ (if same_key k j then some n else pending_at j m)
unfolding pending_at insert_pending
pending-insert k j n m = refl

pub pending-remove :
    (k j : PendingKey) (m : PendingResultMap)
    → pending_at j (remove_pending k m) ≡ (if same_key k j then none else pending_at j m)
unfolding pending_at remove_pending
pending-remove k j [] = ground arith
pending-remove k j ((i, w) ∷ m) = ground (
  arith,
  eq_iff i.0 k.0,
  eq_iff i.1 k.1,
  eq_iff i.0 j.0,
  eq_iff i.1 j.1,
  eq_iff k.0 j.0,
  eq_iff k.1 j.1,
  pending-remove k j m,
)
