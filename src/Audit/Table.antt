-- ===== src/Audit/Table.antt =====
-- A table of the database whose primary key is `(request_id, envelope_digest)`.
use vor_commander.Base.{
  String, ◌≡◌, refl, Bool, true, Option, none, some, List, [], ◌∷◌, ◌&&◌, str_eq, eq_iff,
  if◌then◌else◌, arith, inl, inr, Bool-cases,
}
use mathlib.Core.Option
use vor_commander.Base.Text.{text_eq, text_eq_refl, text_eq→≡}
use vor_commander.Protocol.{Digest32}

pub record Key : Type 0 where
  pub request_id : String
  pub digest : Digest32

abbrev pub key_eq : Key → Key → Bool
key_eq a b = str_eq a.request_id b.request_id && text_eq a.digest b.digest

pub key_eq_refl : (a : Key) → key_eq a a ≡ true
key_eq_refl a = ground (arith, eq_iff a.request_id a.request_id, text_eq_refl a.digest)

pub key_eq→≡ : (a b : Key) → key_eq a b ≡ true → a ≡ b
key_eq→≡ a b h = ground (arith, eq_iff a.request_id b.request_id, text_eq→≡ a.digest b.digest)

abbrev pub Table {ℓ} : Type ℓ → Type ℓ
Table V = List (Key × V)

module _ {ℓ} {V : Type ℓ} where
  unfoldable pub find_row : Key → Table V → Option V
  find_row k [] = none
  find_row k ((j, v) ∷ t) = if key_eq j k then some v else find_row k t

  -- `INSERT`, after the caller has seen that the key is not there
  unfoldable pub add_row : Key → V → Table V → Table V
  add_row k v t = (k, v) ∷ t

  -- `UPDATE … WHERE` the key
  unfoldable pub update_row : Key → V → Table V → Table V
  update_row k v [] = []
  update_row k v ((j, w) ∷ t) = if key_eq j k then (j, v) ∷ t else (j, w) ∷ update_row k v t

  pub find-add :
      (k j : Key) (v : V) (t : Table V)
      → find_row j (add_row k v t) ≡ (if key_eq k j then some v else find_row j t)
  unfolding find_row add_row
  find-add k j v t = refl

  pub find-update :
      (k j : Key) (v : V) (t : Table V)
      → find_row j (update_row k v t)
        ≡ (if key_eq k j then Option.map (λ _. v) (find_row j t) else find_row j t)
  unfolding find_row update_row
  find-update k j v [] = ground arith
  find-update k j v ((i, w) ∷ t) = elim (Bool-cases (key_eq i k)) [
    | inl p ↦ elim (Bool-cases (key_eq i j)) [
      | inl q ↦ ground (arith, p, q, key_eq→≡ i k p, key_eq→≡ i j q, key_eq_refl i)
      | inr q ↦ ground (arith, p, q, key_eq→≡ i k p)
    ]
    | inr p ↦ elim (Bool-cases (key_eq i j)) [
      | inl q ↦ elim (Bool-cases (key_eq k j)) [
        | inl r ↦ ground (arith, p, key_eq→≡ i j q, key_eq→≡ k j r, key_eq_refl i)
        | inr r ↦ ground (arith, p, q, r)
      ]
      | inr q ↦ ground (arith, p, q, find-update k j v t)
    ]
  ]
