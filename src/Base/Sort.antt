-- ===== src/Base/Sort.antt =====
-- `sort` and `sort_by` of slices: a stable insertion sort by a Boolean order. Where the order is
-- total and antisymmetric the result depends only on which values the list holds.
use mathlib.Core.Path.{◌≡◌, refl, ◌∙◌}
use mathlib.Core.Bool.{Bool, true, false}
use mathlib.Core.List.{List, [], ◌∷◌, Permᴰ}
use native.Mathlib.Omega.{arith}
use vor_commander.Base.Tests.{if◌then◌else◌, ltb, ◌==◌}
use vor_commander.Base.Text.{Text}

module _ {ℓ} {A : Type ℓ} (le : A → A → Bool) where
  pub insert_sorted : A → List A → List A
  insert_sorted a [] = a ∷ []
  insert_sorted a (x ∷ xs) = if le x a then x ∷ insert_sorted a xs else a ∷ (x ∷ xs)

  pub sort : List A → List A
  sort [] = []
  sort (x ∷ xs) = insert_sorted x (sort xs)

-- The laws of `Ord::cmp`, as a Boolean `≤`.
pub record IsTotalOrder {ℓ} {A : Type ℓ} (le : A → A → Bool) : Type ℓ where
  pub total : (a b : A) → le a b ≡ false → le b a ≡ true
  pub antisym : (a b : A) → le a b ≡ true → le b a ≡ true → a ≡ b
  pub trans : (a b c : A) → le a b ≡ true → le b c ≡ true → le a c ≡ true

module _ {ℓ} {A : Type ℓ} (le : A → A → Bool) (o : IsTotalOrder le) where
  insert_sorted_comm :
      (a b : A) (xs : List A)
      → insert_sorted le a (insert_sorted le b xs) ≡ insert_sorted le b (insert_sorted le a xs)
  unfolding insert_sorted
  insert_sorted_comm a b [] = ground (arith, o.total a b, o.total b a, o.antisym a b)
  insert_sorted_comm a b (x ∷ xs) = ground (
    arith,
    insert_sorted_comm a b xs,
    o.total a b,
    o.antisym a b,
    o.total b a,
    o.total x a,
    o.total x b,
    o.trans x a b,
    o.trans x b a,
    o.trans a b x,
    o.trans b a x,
  )

  -- Two lists with the same values, each as often, are sorted into the same list.
  pub sort-perm : (xs ys : List A) → Permᴰ xs ys → sort le xs ≡ sort le ys
  unfolding sort
  sort-perm _ _ Permᴰ.nil = refl
  sort-perm (x ∷ xs) (y ∷ ys) (Permᴰ.cons e d) = cc (e, sort-perm xs ys d)
  sort-perm (x ∷ (y ∷ xs)) (y' ∷ (x' ∷ _)) (Permᴰ.swap e f) =
      cc (e, f, insert_sorted_comm x y (sort le xs))
  sort-perm xs zs (Permᴰ.trans {l₂ = ys} d e) = sort-perm xs ys d ∙ sort-perm ys zs e

-- `str::cmp`: UTF-8 keeps the order of code points
pub text_le : Text → Text → Bool
text_le [] t = true
text_le (c ∷ s) [] = false
text_le (c ∷ s) (d ∷ t) = if ltb c d then true else if c == d then text_le s t else false

text_le-total : (s t : Text) → text_le s t ≡ false → text_le t s ≡ true
unfolding text_le
text_le-total [] t h = cc
text_le-total (c ∷ s) [] h = refl
text_le-total (c ∷ s) (d ∷ t) h = ground (arith, text_le-total s t)

text_le-antisym : (s t : Text) → text_le s t ≡ true → text_le t s ≡ true → s ≡ t
unfolding text_le
text_le-antisym [] [] h k = refl
text_le-antisym [] (d ∷ t) h k = cc
text_le-antisym (c ∷ s) [] h k = cc
text_le-antisym (c ∷ s) (d ∷ t) h k = ground (arith, text_le-antisym s t)

text_le_trans : (s t u : Text) → text_le s t ≡ true → text_le t u ≡ true → text_le s u ≡ true
unfolding text_le
text_le_trans [] t u h k = refl
text_le_trans (c ∷ s) [] u h k = cc
text_le_trans (c ∷ s) (d ∷ t) [] h k = cc
text_le_trans (c ∷ s) (d ∷ t) (e ∷ u) h k = ground (arith, text_le_trans s t u)

pub text_le-IsTotalOrder : IsTotalOrder text_le
text_le-IsTotalOrder = record {
  total = text_le-total;
  antisym = text_le-antisym;
  trans = text_le_trans;
}
