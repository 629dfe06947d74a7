-- ===== src/WinPath/Within.antt =====
-- What `windows_path_within` accepts: the root itself, and what stands below it at a separator,
-- both up to ASCII case and trailing separators.
use vor_commander.Base.{
  ◌≡◌, ◌↔◌, refl, sym, ap, ◌∙◌, Bool, true, Option, none, some, [], ◌∷◌, ◌++◌, ◌||◌, arith, inl,
  inr, Bool-cases,
}
use vor_commander.Base.Text.{
  Text, lower, lower_char, trim_end, is_empty, split_at_byte, byte_len, text_eq→≡, text_eq_refl,
  eq_ignore_case,
}
use vor_commander.Base.TextLaws.{
  byte_len-lower, split_at_byte-append, split_at_byte_sound, lower-eq-append,
}
use vor_commander.WinPath.{is_separator, starts_with_separator, below_root, windows_path_within}
use mathlib.Core.List.{map-append, append-nil, append_assoc}

-- The path without trailing separators, in lower case.
abbrev pub folded : Text → Text
folded s = lower (trim_end is_separator s)

abbrev pub at_boundary : Text → Bool
at_boundary suffix = is_empty suffix || starts_with_separator suffix

abbrev pub IsWithin : Text → Text → Type 0
IsWithin path root =
    (suffix : Text) × (folded path ≡ folded root ++ suffix) × (at_boundary suffix ≡ true)

starts_with_separator-lower : (s : Text) → starts_with_separator (lower s) ≡ starts_with_separator s
starts_with_separator-lower [] = refl
starts_with_separator-lower (c ∷ s) = ground arith

at_boundary-append :
    (t s : Text) → at_boundary t ≡ true → at_boundary s ≡ true → at_boundary (t ++ s) ≡ true
at_boundary-append [] s h k = k
at_boundary-append (c ∷ t) s h k = h

below_root_sound :
    (p r : Text) (o : Option (Text × Text))
    → split_at_byte (byte_len r) p ≡ o
    → below_root o r ≡ true
    → (s : Text) × (lower p ≡ lower r ++ s) × (at_boundary s ≡ true)
below_root_sound p r none e h = cc
below_root_sound p r (some (a, b)) e h = (
  lower b,
  ap lower (split_at_byte_sound (byte_len r) p a b e).0
      ∙ map-append lower_char a b
      ∙ ap (λ t. t ++ lower b) (text_eq→≡ (lower a) (lower r) (ground arith)),
  ground (arith, starts_with_separator-lower b),
)

below_root_complete :
    (p r s : Text)
    → lower p ≡ lower r ++ s
    → starts_with_separator s ≡ true
    → below_root (split_at_byte (byte_len r) p) r ≡ true
below_root_complete p r s e h =
    let (a, b, cut, la, lb) = lower-eq-append p (lower r) s e in
    let same : byte_len a ≡ byte_len r =
      sym (byte_len-lower a) ∙ ap byte_len la ∙ byte_len-lower r in
    rw (cut, ← same, split_at_byte-append a b)
      (ground (arith, text_eq_refl (lower r), starts_with_separator-lower b, la, lb, h))

IsWithin-sound : (path root : Text) → windows_path_within path root ≡ true → IsWithin path root
unfolding windows_path_within
IsWithin-sound path root h =
    let p = trim_end is_separator path in
    let r = trim_end is_separator root in
    elim (Bool-cases (eq_ignore_case p r)) [
      | inl e ↦ ([], text_eq→≡ (lower p) (lower r) e ∙ sym (append-nil (lower r)), refl)
      | inr e ↦ below_root_sound p r (split_at_byte (byte_len r) p) refl (ground (arith, e, h))
    ]

within_complete : (path root : Text) → IsWithin path root → windows_path_within path root ≡ true
unfolding windows_path_within
within_complete path root ([], e, b) =
    ground (arith, e ∙ append-nil (folded root), text_eq_refl (folded root))
within_complete path root (c ∷ s, e, b) = ground (
  arith,
  below_root_complete (trim_end is_separator path) (trim_end is_separator root) (c ∷ s) e b,
)

-- A path is within a root exactly when, in lower case and without trailing separators, it is the
-- root followed by nothing or by a separator and more: a sibling that shares the root's first
-- letters is not within it.
pub IsWithin-iff : (path root : Text) → (windows_path_within path root ≡ true) ↔ IsWithin path root
IsWithin-iff path root = (IsWithin-sound path root, within_complete path root)

-- What is within a folder that is within a root is within the root.
pub within_trans :
    (a b c : Text)
    → windows_path_within a b ≡ true
    → windows_path_within b c ≡ true
    → windows_path_within a c ≡ true
within_trans a b c h k =
    let (s, es, bs) = IsWithin-sound a b h in
    let (t, et, bt) = IsWithin-sound b c k in
    within_complete a c
      (t ++ s, es ∙ ap (λ x. x ++ s) et ∙ append_assoc (folded c) t s, at_boundary-append t s bt bs)
