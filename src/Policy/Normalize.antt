-- ===== src/Policy/Normalize.antt =====
-- `normalize_windows_path` of crates/vor-policy/src/lib.rs: the one form in which the policy
-- matches a path, or nothing (which denies) for a path that is ambiguous on Windows.
pub mod Split
pub mod Idempotent
use Prim.Native.Nat.{ℕ, zero, suc}
use vor_commander.Base.{
  String, Bool, true, false, not, Option, none, some, List, [], ◌∷◌, ◌++◌, map, ◌==◌, leb, ◌&&◌,
  ◌||◌, if◌then◌else◌, any, filter, length,
}
use vor_commander.Base.Text.{
  Text, codes, text_eq, lower, upper_char, strip_prefix, has_suffix, contains_char, split, join,
  is_empty, trim_end, is_some,
}
use vor_commander.WinPath.{slashes, components, is_one_of}
use vor_commander.Policy.Config.{Externals}

abbrev pub is_ascii_alphabetic : ℕ → Bool
is_ascii_alphabetic c = (leb 65 c && leb c 90) || (leb 97 c && leb c 122)

abbrev pub is_ascii_digit : ℕ → Bool
is_ascii_digit c = leb 48 c && leb c 57

-- `component.split_once('.')`, the part before
abbrev pub before_char : ℕ → Text → Text
before_char c [] = []
before_char c (d ∷ s) = let rest = before_char c s in if d == c then [] else d ∷ rest

abbrev pub is_port_number : Option Text → Bool
is_port_number none = false
is_port_number (some number) =
    is_one_of ("1" ∷ "2" ∷ "3" ∷ "4" ∷ "5" ∷ "6" ∷ "7" ∷ "8" ∷ "9" ∷ []) number

unfoldable pub is_reserved_windows_name : Text → Bool
is_reserved_windows_name component =
    let stem = lower (before_char 46 component) in
    is_one_of ("con" ∷ "prn" ∷ "aux" ∷ "nul" ∷ []) stem
    || is_port_number (strip_prefix (codes "com") stem)
    || is_port_number (strip_prefix (codes "lpt") stem)

-- `~` before a digit, as in `PROGRA~1`
unfoldable pub has_short_name_alias : Text → Bool
has_short_name_alias [] = false
has_short_name_alias (c ∷ []) = false
has_short_name_alias (c ∷ (d ∷ s)) = (c == 126 && is_ascii_digit d) || has_short_name_alias (d ∷ s)

-- what the loop of `split_windows_path` refuses
unfoldable pub is_ambiguous : Text → Bool
is_ambiguous part =
    text_eq part (codes ".")
    || text_eq part (codes "..")
    || has_suffix (codes ".") part
    || has_suffix (codes " ") part
    || contains_char 58 part
    || contains_char 0 part
    || is_reserved_windows_name part

unfoldable pub split_windows_path : Text → Option (ℕ × List Text)
split_windows_path (drive ∷ (colon ∷ (slash ∷ rest))) =
    let parts = components rest in
    if is_ascii_alphabetic drive && colon == 58 && slash == 92
    then (if any is_ambiguous parts then none else some (upper_char drive, parts))
    else none
split_windows_path _ = none

unfoldable pub join_windows_path : ℕ → List Text → Text
join_windows_path drive parts = drive ∷ (58 ∷ (92 ∷ lower (join 92 parts)))

-- `expanded.push('\\'); expanded.push_str(part)` for each part of the tail
abbrev pub push_parts : Text → List Text → Text
push_parts expanded [] = expanded
push_parts expanded (p ∷ ps) = push_parts (expanded ++ (92 ∷ p)) ps

abbrev pub close_drive : Text → Text
close_drive expanded = if has_suffix (codes ":") expanded then expanded ++ (92 ∷ []) else expanded

abbrev pub expand_from : Option Text → List Text → Option Text
expand_from none tail = none
expand_from (some long) tail = some (close_drive (push_parts (trim_end (λ c. c == 92) long) tail))

abbrev pub or_else {ℓ} : {A : Type ℓ} → Option A → Option A → Option A
or_else none b = b
or_else (some a) b = some a

-- The longest existing prefix is tried first: `head` with all of `tail`, before `head` alone. On
-- other platforms than Windows the code returns `None`, as here where nothing has a long name.
unfoldable pub expand_after : Externals → ℕ → List Text → List Text → Option Text
expand_after x drive head [] =
    expand_from (x.long_path_name (drive ∷ (58 ∷ (92 ∷ join 92 head)))) []
expand_after x drive head (p ∷ ps) =
    or_else (expand_after x drive (head ++ (p ∷ [])) ps)
      (expand_from (x.long_path_name (drive ∷ (58 ∷ (92 ∷ join 92 head)))) (p ∷ ps))

unfoldable pub expand_short_names : Externals → ℕ → List Text → Option Text
unfolding expand_after
expand_short_names x drive parts = expand_after x drive [] parts

abbrev pub finish_expanded : Option (ℕ × List Text) → Option Text
finish_expanded none = none
finish_expanded (some (drive, parts)) =
    if any has_short_name_alias parts then none else some (join_windows_path drive parts)

abbrev pub reread : Option Text → Option Text
reread none = none
reread (some expanded) = finish_expanded (split_windows_path expanded)

abbrev pub finish_split : Externals → Option (ℕ × List Text) → Option Text
finish_split x none = none
finish_split x (some (drive, parts)) =
    if any has_short_name_alias parts
    then reread (expand_short_names x drive parts)
    else some (join_windows_path drive parts)

unfoldable pub normalize_windows_path : Externals → Text → Option Text
normalize_windows_path x input = finish_split x (split_windows_path (slashes input))
