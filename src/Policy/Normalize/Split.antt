-- ===== src/Policy/Normalize/Split.antt =====
-- Lower case does not change what the policy asks of a path component, and the components of a
-- joined path are those that were joined.
use mathlib.Core.List.{reverse, reverse-append, map-append}
use vor_commander.Base.{
  ℕ, ◌≡◌, ◌⊎◌, refl, sym, ap, ◌∙◌, true, false, not, List, [], ◌∷◌, ◌++◌, map, arith, filter, All,
  inl, inr,
}
use vor_commander.Base.Text.{
  Text, codes, text_eq, lower, lower_char, has_suffix, has_prefix, contains_char, is_empty, split,
  join,
}
use vor_commander.Base.TextLaws.{lower_idem}
use vor_commander.Base.Splitting.{
  Lacks, split-join, Lacks-lower, All-split, All-filter, filter_sound, filter-All,
}
use vor_commander.WinPath.{components}
use vor_commander.Policy.Normalize.{
  before_char, is_reserved_windows_name, has_short_name_alias, is_ambiguous,
}

before_dot-lower : (s : Text) → before_char 46 (lower s) ≡ lower (before_char 46 s)
before_dot-lower [] = refl
before_dot-lower (c ∷ s) = ground (arith, before_dot-lower s)

is_reserved-lower : (p : Text) → is_reserved_windows_name (lower p) ≡ is_reserved_windows_name p
unfolding is_reserved_windows_name
is_reserved-lower p =
    let same : lower (before_char 46 (lower p)) ≡ lower (before_char 46 p) =
      ap lower (before_dot-lower p) ∙ lower_idem (before_char 46 p) in
    rw same

pub has_short_name_alias-lower :
    (p : Text) → has_short_name_alias (lower p) ≡ has_short_name_alias p
unfolding has_short_name_alias
has_short_name_alias-lower [] = refl
has_short_name_alias-lower (c ∷ []) = refl
has_short_name_alias-lower (c ∷ (d ∷ s)) = ground (arith, has_short_name_alias-lower (d ∷ s))

-- a character that is no letter is found in the lower case exactly where it stood
contains-lower :
    (k : ℕ) (s : Text) → k ≡ 58 ⊎ (k ≡ 0) → contains_char k (lower s) ≡ contains_char k s
contains-lower k [] h = refl
contains-lower k (c ∷ s) h = ground (arith, contains-lower k s h)

reverse-lower : (s : Text) → reverse (lower s) ≡ lower (reverse s)
reverse-lower [] = refl
reverse-lower (c ∷ s) =
    reverse-append (lower_char c ∷ []) (lower s)
    ∙ ap (λ l. l ++ (lower_char c ∷ [])) (reverse-lower s)
    ∙ sym (map-append lower_char (reverse s) (c ∷ []))
    ∙ ap lower (sym (reverse-append (c ∷ []) s))

prefix_char-lower :
    (k : ℕ) (s : Text) → k ≡ 46 ⊎ (k ≡ 32) → has_prefix (k ∷ []) (lower s) ≡ has_prefix (k ∷ []) s
prefix_char-lower k [] h = refl
prefix_char-lower k (c ∷ s) h = ground arith

suffix_char-lower :
    (k : ℕ) (s : Text) → k ≡ 46 ⊎ (k ≡ 32) → has_suffix (k ∷ []) (lower s) ≡ has_suffix (k ∷ []) s
suffix_char-lower k s h =
    ap (has_prefix (k ∷ [])) (reverse-lower s) ∙ prefix_char-lower k (reverse s) h

dots-lower :
    (s : Text)
    → (text_eq (lower s) (codes ".") ≡ text_eq s (codes "."))
      × (text_eq (lower s) (codes "..") ≡ text_eq s (codes ".."))
dots-lower [] = (refl, refl)
dots-lower (a ∷ []) = ground arith
dots-lower (a ∷ (b ∷ [])) = ground arith
dots-lower (a ∷ (b ∷ (c ∷ s))) = ground arith

pub is_ambiguous-lower : (p : Text) → is_ambiguous (lower p) ≡ is_ambiguous p
unfolding is_ambiguous
is_ambiguous-lower p = cc (
  (dots-lower p).0,
  (dots-lower p).1,
  suffix_char-lower 46 p (inl refl),
  suffix_char-lower 32 p (inr refl),
  contains-lower 58 p (inl refl),
  contains-lower 0 p (inr refl),
  is_reserved-lower p,
)

-- What a component of a path satisfies: it is not empty and holds no separator.
abbrev pub IsComponent : Text → Type 0
IsComponent p = (is_empty p ≡ false) × Lacks 92 p

All-both :
    (ps : List Text)
    → All (λ p. not (is_empty p) ≡ true) ps
    → All (Lacks 92) ps
    → All IsComponent ps
All-both [] h k = tt
All-both (p ∷ ps) h k = ((ground arith, k.0), All-both ps h.1 k.1)

pub components-IsComponent : (s : Text) → All IsComponent (components s)
components-IsComponent s =
    All-both (components s) (filter_sound (λ p. not (is_empty p)) (split 92 s))
      (All-filter (Lacks 92) (λ p. not (is_empty p)) (split 92 s) (All-split 92 s))

All-left : (ps : List Text) → All IsComponent ps → All (λ p. not (is_empty p) ≡ true) ps
All-left [] h = tt
All-left (p ∷ ps) h = (ground arith, All-left ps h.1)

All-right : (ps : List Text) → All IsComponent ps → All (Lacks 92) ps
All-right [] h = tt
All-right (p ∷ ps) h = (h.0.1, All-right ps h.1)

-- Joining components with separators and taking the path apart gives the components.
pub components-join : (ps : List Text) → All IsComponent ps → components (join 92 ps) ≡ ps
unfolding join split
components-join [] h = refl
components-join (p ∷ ps) h =
    ap (filter (λ p. not (is_empty p))) (split-join 92 p ps (All-right (p ∷ ps) h))
    ∙ filter-All (λ p. not (is_empty p)) (p ∷ ps) (All-left (p ∷ ps) h)

pub All-lower : (ps : List Text) → All IsComponent ps → All IsComponent (map lower ps)
All-lower [] h = tt
All-lower ([] ∷ ps) h = cc (h.0.0)
All-lower ((c ∷ p) ∷ ps) h = ((refl, Lacks-lower (c ∷ p) ∙ h.0.1), All-lower ps h.1)
