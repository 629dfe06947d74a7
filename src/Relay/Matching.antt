-- ===== src/Relay/Matching.antt =====
-- Which call each entry of `pending` of apps/vor-relay/src/lib.rs is for, and what calls receive.
use vor_commander.Base.{
  ℕ, String, ◌≡◌, refl, ap, ◌∙◌, subst, Bool, true, false, Option, none, some, ◌==◌, ok, inl, inr,
  arith, Bool-cases,
}
use vor_commander.Dispatch.State.{ActionResult}
use vor_commander.Relay.Pending.{
  PendingKey, pending_at, remove_pending, same_key, same_key_refl, pending-remove,
}
use vor_commander.Relay.Hub.{
  RelayCall, Relay, Stage, admitted, sending, waiting, failed, returned, set_call,
}
use vor_commander.Relay.Steps.{IsDropped}

abbrev pub is_open : Stage → Bool
is_open admitted = false
is_open sending = true
is_open waiting = true
is_open (failed e) = true
is_open (returned r) = false

-- the call that an entry is for
abbrev pub IsEntry : PendingKey → Option RelayCall → Type 0
IsEntry k call =
    (c : RelayCall) × (call ≡ some c) × (c.key ≡ k) × (is_open c.stage ≡ true) × (c.received ≡ none)

abbrev pub IsTidy : Relay → Type 0
IsTidy s = (k : PendingKey) (n : ℕ) → pending_at k s.pending ≡ some n → IsEntry k (s.calls n)

-- A call has received only what its device sent and what is for its request, and returns nothing
-- else. `P` says which results each device has sent.
module _ (P : String → ActionResult → Type 0) where
  abbrev pub IsHonest : RelayCall → Type 0
  IsHonest c =
      ((r : ActionResult) → c.received ≡ some r → P c.key.0 r × (r.request_id ≡ c.key.1))
      × ((r : ActionResult) → c.stage ≡ returned (ok r) → c.received ≡ some r)
      × (c.stage ≡ admitted → c.received ≡ none)

  abbrev pub IsHonestAt : Option RelayCall → Type 0
  IsHonestAt none = Unit {0}
  IsHonestAt (some c) = IsHonest c

  abbrev pub IsMatched : Relay → Type 0
  IsMatched s = IsTidy s × ((n : ℕ) → IsHonestAt (s.calls n))

-- a call that no entry is for may become anything
pub IsTidy-set_free :
    (n : ℕ) (c : RelayCall) (s : Relay) → IsDropped n s → IsTidy s → IsTidy (set_call n c s)
IsTidy-set_free n c s dropped tidy k m h = elim (Bool-cases (m == n)) [
  | inl e ↦
      let same : m ≡ n = ground (arith, e) in
      elim (dropped k (subst (λ x. pending_at k s.pending ≡ some x) same h)) [ ]
  | inr e ↦ rw e (tidy k m h)
]

pub IsTidy-set_open :
    (n : ℕ) (c c' : RelayCall) (s : Relay)
    → s.calls n ≡ some c
    → c'.key ≡ c.key
    → is_open c'.stage ≡ true
    → c'.received ≡ c.received
    → IsTidy s
    → IsTidy (set_call n c' s)
IsTidy-set_open n c c' s at key opened received tidy k m h = elim (Bool-cases (m == n)) [
  | inl e ↦
      let same : m ≡ n = ground (arith, e) in
      let (d, at', key', _, none_yet) = tidy k m h in
      let call : c ≡ d = ground (arith, at, at', same) in
      (
        c',
        rw e refl,
        key ∙ ap (λ x. x.key) call ∙ key',
        opened,
        received ∙ ap (λ x. x.received) call ∙ none_yet,
      )
  | inr e ↦ rw e (tidy k m h)
]

pub IsTidy-remove :
    (j : PendingKey) (s : Relay)
    → IsTidy s
    → IsTidy (record s { pending = remove_pending j s.pending })
IsTidy-remove j s tidy k m h = tidy k m (elim (Bool-cases (same_key j k)) [
  | inl e ↦ ground (arith, h, pending-remove j k s.pending, e)
  | inr e ↦ ground (arith, h, pending-remove j k s.pending, e)
])

pub IsDropped-remove :
    (n : ℕ) (c : RelayCall) (s : Relay)
    → s.calls n ≡ some c
    → IsTidy s
    → IsDropped n (record s { pending = remove_pending c.key s.pending })
IsDropped-remove n c s at tidy k h = elim (Bool-cases (same_key c.key k)) [
  | inl e ↦ ground (arith, h, pending-remove c.key k s.pending, e)
  | inr e ↦
      let (d, at', key', _, _) =
        tidy k n (ground (arith, h, pending-remove c.key k s.pending, e)) in
      let call : c ≡ d = ground (arith, at, at') in
      ground (arith, e, same_key_refl k, ap (λ x. x.key) call ∙ key')
]

module _ (P : String → ActionResult → Type 0) where
  pub set-IsHonest :
      (n : ℕ) (c : RelayCall) (s : Relay)
      → IsHonest P c
      → ((m : ℕ) → IsHonestAt P (s.calls m))
      → (m : ℕ) → IsHonestAt P ((set_call n c s).calls m)
  set-IsHonest n c s honest all m = elim (Bool-cases (m == n)) [
    | inl e ↦ rw e honest
    | inr e ↦ rw e (all m)
  ]
