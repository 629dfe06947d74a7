-- ===== src/Base/Splitting.antt =====
-- `split`, `join` and the characters of a text: joining parts and splitting again gives the parts.
use mathlib.Core.Path.{◌≡◌, refl, ap, sym, ◌∙◌}
use mathlib.Core.Bool.{Bool, true, false}
use mathlib.Core.Logic.{inl, inr}
use mathlib.Core.List.{List, [], ◌∷◌, ◌++◌, map, map-append}
use Prim.Native.Nat.{ℕ}
use native.Mathlib.Omega.{arith}
use vor_commander.Base.Tests.{◌==◌, Bool-cases}
use vor_commander.Base.Lists.{any, filter, All}
use vor_commander.Base.Text.{Text, lower, lower_char, contains_char, split, cons_part, join}

pub NonEmpty-split : (c : ℕ) (s : Text) → (p : Text) × (ps : List Text) × (split c s ≡ p ∷ ps)
unfolding split
NonEmpty-split c [] = ([], [], refl)
NonEmpty-split c (d ∷ s) =
    let (p, ps, e) = NonEmpty-split c s in
    elim (Bool-cases (d == c)) [ inl h ↦ ([], split c s, rw h) | inr h ↦ (d ∷ p, ps, rw (h, e)) ]

cons_part-append :
    (b : Bool) (d : ℕ) (p : Text) (ps qs : List Text)
    → cons_part b d ((p ∷ ps) ++ qs) ≡ cons_part b d (p ∷ ps) ++ qs
cons_part-append true d p ps qs = refl
cons_part-append false d p ps qs = refl

-- A separator in the middle splits the text into the parts of each side.
pub split-append : (c : ℕ) (s t : Text) → split c (s ++ (c ∷ t)) ≡ split c s ++ split c t
unfolding split
split-append c [] t = ground arith
split-append c (d ∷ s) t =
    let (p, ps, e) = NonEmpty-split c s in
    ap (cons_part (d == c) d) (split-append c s t)
    ∙ ap (λ l. cons_part (d == c) d (l ++ split c t)) e
    ∙ cons_part-append (d == c) d p ps (split c t)
    ∙ ap (λ l. cons_part (d == c) d l ++ split c t) (sym e)

abbrev pub Lacks : ℕ → Text → Type 0
Lacks c s = contains_char c s ≡ false

pub split_lacking : (c : ℕ) (s : Text) → Lacks c s → split c s ≡ s ∷ []
unfolding split
split_lacking c [] h = refl
split_lacking c (d ∷ s) h = ground (arith, split_lacking c s)

pub Lacks-append : (c : ℕ) (s t : Text) → Lacks c s → Lacks c t → Lacks c (s ++ t)
Lacks-append c [] t h k = k
Lacks-append c (d ∷ s) t h k = ground (arith, Lacks-append c s t)

pub split-join :
    (c : ℕ) (p : Text) (ps : List Text)
    → All (Lacks c) (p ∷ ps)
    → split c (join c (p ∷ ps)) ≡ p ∷ ps
unfolding join
split-join c p [] h = split_lacking c p h.0
split-join c p (q ∷ ps) h =
    split-append c p (join c (q ∷ ps))
    ∙ ap (λ l. l ++ split c (join c (q ∷ ps))) (split_lacking c p h.0)
    ∙ ap (λ l. p ∷ l) (split-join c q ps h.1)

-- No part of a split holds the separator.
pub All-split : (c : ℕ) (s : Text) → All (Lacks c) (split c s)
unfolding split
All-split c [] = (refl, tt)
All-split c (d ∷ s) =
    let (p, ps, e) = NonEmpty-split c s in
    let ih = All-split c s in
    elim (Bool-cases (d == c)) [
      | inl h ↦ rw h (refl, ih)
      | inr h ↦ rw (h, e) (let ih' : All (Lacks c) (p ∷ ps) = rw e at ih in (ground arith, ih'.1))
    ]

-- A character that the text lacks is in none of its parts.
pub All-split_lacking : (c d : ℕ) (s : Text) → Lacks d s → All (Lacks d) (split c s)
unfolding split
All-split_lacking c d [] h = (refl, tt)
All-split_lacking c d (x ∷ s) h =
    let (p, ps, e) = NonEmpty-split c s in
    let ih = All-split_lacking c d s (ground arith) in
    elim (Bool-cases (x == c)) [
      | inl k ↦ rw k (refl, ih)
      | inr k ↦ rw (k, e) (let ih' : All (Lacks d) (p ∷ ps) = rw e at ih in (ground arith, ih'.1))
    ]

module _ {ℓ κ} {A : Type ℓ} (P : A → Type κ) (p : A → Bool) where
  pub All-filter : (xs : List A) → All P xs → All P (filter p xs)
  All-filter [] h = tt
  All-filter (x ∷ xs) h = elim (Bool-cases (p x)) [
    | inl e ↦ rw e (h.0, All-filter xs h.1)
    | inr e ↦ rw e (All-filter xs h.1)
  ]

module _ {ℓ} {A : Type ℓ} (p : A → Bool) where
  pub filter_sound : (xs : List A) → All (λ x. p x ≡ true) (filter p xs)
  filter_sound [] = tt
  filter_sound (x ∷ xs) = elim (Bool-cases (p x)) [
    | inl e ↦ rw e (e, filter_sound xs)
    | inr e ↦ rw e (filter_sound xs)
  ]

  pub filter-All : (xs : List A) → All (λ x. p x ≡ true) xs → filter p xs ≡ xs
  filter-All [] h = refl
  filter-All (x ∷ xs) h = rw h.0 (ap (λ l. x ∷ l) (filter-All xs h.1))

  pub filter-append : (xs ys : List A) → filter p (xs ++ ys) ≡ filter p xs ++ filter p ys
  filter-append [] ys = refl
  filter-append (x ∷ xs) ys = elim (Bool-cases (p x)) [
    | inl e ↦ rw e (ap (λ l. x ∷ l) (filter-append xs ys))
    | inr e ↦ rw e (filter-append xs ys)
  ]

  pub any-map {κ} :
      {B : Type κ} (f : B → A) (q : B → Bool) (xs : List B)
      → ((x : B) → p (f x) ≡ q x)
      → any p (map f xs) ≡ any q xs
  any-map f q [] h = refl
  any-map f q (x ∷ xs) h = cc (h x, any-map f q xs h)

pub lower-join : (ps : List Text) → lower (join 92 ps) ≡ join 92 (map lower ps)
unfolding join
lower-join [] = refl
lower-join (p ∷ []) = refl
lower-join (p ∷ (q ∷ ps)) =
    map-append lower_char p (92 ∷ join 92 (q ∷ ps))
    ∙ ap (λ l. lower p ++ (92 ∷ l)) (lower-join (q ∷ ps))

pub Lacks-lower : (s : Text) → contains_char 92 (lower s) ≡ contains_char 92 s
Lacks-lower [] = refl
Lacks-lower (c ∷ s) = ground (arith, Lacks-lower s)
