-- ===== src/Wire/Expiring.antt =====
-- The two maps of `ReplayGuard` in crates/vor-wire/src/lib.rs, from a key to its expiry.
use vor_commander.Base.{
  ℕ, ◌+◌, ◌<◌, ◌≤◌, ◌≡◌, Bool, true, false, Option, none, some, List, [], ◌∷◌, if◌then◌else◌, ltb,
  length, arith, inl, inr, Bool-cases,
}

abbrev pub Expiries : Type 0 → Type 0
Expiries K = List (K × ℕ)

module _ {K : Type 0} (same : K → K → Bool) where
  unfoldable pub find : K → Expiries K → Option ℕ
  find k [] = none
  find k ((j, e) ∷ t) = if same j k then some e else find k t

  -- `HashMap::insert`
  unfoldable pub put : K → ℕ → Expiries K → Expiries K
  put k e [] = (k, e) ∷ []
  put k e ((j, d) ∷ t) = if same j k then (j, e) ∷ t else (j, d) ∷ put k e t

  -- `retain(|_, expiry| *expiry > now)`
  unfoldable pub retain : ℕ → Expiries K → Expiries K
  retain now [] = []
  retain now ((j, e) ∷ t) = let rest = retain now t in if ltb now e then (j, e) ∷ rest else rest

  pub find-retain :
      (k : K) (now e : ℕ) (t : Expiries K)
      → find k t ≡ some e
      → now < e
      → find k (retain now t) ≡ some e
  unfolding find retain
  find-retain k now e [] h b = cc
  find-retain k now e ((j, d) ∷ t) h b = ground (arith, h, b, find-retain k now e t)

  pub length-retain : (now : ℕ) (t : Expiries K) → length (retain now t) ≤ length t
  unfolding retain
  length-retain now [] = ground arith
  length-retain now ((j, e) ∷ t) = ground (arith, length-retain now t)

  pub length-put : (k : K) (e : ℕ) (t : Expiries K) → length (put k e t) ≤ length t + 1
  unfolding put
  length-put k e [] = ground arith
  length-put k e ((j, d) ∷ t) = ground (arith, length-put k e t)

  module _ (same→≡ : (a b : K) → same a b ≡ true → a ≡ b)
      (same_refl : (a : K) → same a a ≡ true) where
    pub find-put_self : (k : K) (e : ℕ) (t : Expiries K) → find k (put k e t) ≡ some e
    unfolding find put
    find-put_self k e [] = ground (arith, same_refl k)
    find-put_self k e ((j, d) ∷ t) = ground (arith, find-put_self k e t)

    pub find-put_ne :
        (k i : K) (e d : ℕ) (t : Expiries K)
        → find i t ≡ some d
        → same k i ≡ false
        → find i (put k e t) ≡ some d
    unfolding find put
    find-put_ne k i e d [] h n = cc
    find-put_ne k i e d ((j, c) ∷ t) h n = elim (Bool-cases (same j k)) [
      | inl p ↦ ground (arith, h, n, p, same→≡ j k p)
      | inr p ↦ ground (arith, h, n, p, find-put_ne k i e d t)
    ]
