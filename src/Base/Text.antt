-- ===== src/Base/Text.antt =====
-- Rust's `&str` as its list of code points, and the functions of `str` and `char` that the code
-- calls. Lengths in Rust are in bytes of UTF-8, so `byte_len` adds up the bytes of each code point.
use Prim.Native.Nat.{ℕ, ◌+◌, ◌-◌, ◌/◌, ◌%◌}
use Prim.Native.Char.{code}
use Prim.Native.String.{String}
use mathlib.Core.Path.{◌≡◌, refl, ap₂}
use mathlib.Core.Bool.{Bool, true, false, ◌&&◌, ◌||◌}
use mathlib.Core.List.{List, [], ◌∷◌, ◌++◌, map, reverse}
use mathlib.Core.Option.{Option, none, some}
use native.Mathlib.Omega.{arith}
use text.Mathlib.TextEquality.{Char-path}
use vor_commander.Base.Tests.{ltb, leb, ◌==◌, if◌then◌else◌}
use vor_commander.Base.Lists.{any, all}

abbrev pub Text : Type 0
Text = List ℕ

abbrev pub codes : String → Text
codes String.[] = []
codes (String.◌∷◌ c s) = code c ∷ codes s

-- `char::is_whitespace`: the code points of the Unicode property White_Space
unfoldable pub is_whitespace : ℕ → Bool
is_whitespace c =
    (leb 9 c && leb c 13)
    || c == 32
    || c == 133
    || c == 160
    || c == 5760
    || (leb 8192 c && leb c 8202)
    || c == 8232
    || c == 8233
    || c == 8239
    || c == 8287
    || c == 12288

-- `s.trim().is_empty()`
unfoldable pub is_blank : Text → Bool
is_blank s = all is_whitespace s

-- `char::len_utf8`
abbrev pub utf8_len : ℕ → ℕ
utf8_len c = if ltb c 128 then 1 else if ltb c 2048 then 2 else if ltb c 65536 then 3 else 4

-- `str::len`
abbrev pub byte_len : Text → ℕ
byte_len [] = 0
byte_len (c ∷ s) = utf8_len c + byte_len s

-- `char::encode_utf8`
unfoldable pub utf8 : ℕ → List ℕ
utf8 c =
    if ltb c 128
    then c ∷ []
    else if ltb c 2048
    then (192 + c / 64) ∷ (128 + c % 64) ∷ []
    else if ltb c 65536
    then (224 + c / 4096) ∷ (128 + c / 64 % 64) ∷ (128 + c % 64) ∷ []
    else (240 + c / 262144) ∷ (128 + c / 4096 % 64) ∷ (128 + c / 64 % 64) ∷ (128 + c % 64) ∷ []

-- `str::as_bytes`
abbrev pub bytes : Text → List ℕ
bytes [] = []
bytes (c ∷ s) = utf8 c ++ bytes s

abbrev pub text_eq : Text → Text → Bool
text_eq [] [] = true
text_eq [] (d ∷ t) = false
text_eq (c ∷ s) [] = false
text_eq (c ∷ s) (d ∷ t) = c == d && text_eq s t

-- `char::to_ascii_lowercase`, `to_ascii_uppercase`
abbrev pub lower_char : ℕ → ℕ
lower_char c = if leb 65 c && leb c 90 then c + 32 else c

abbrev pub upper_char : ℕ → ℕ
upper_char c = if leb 97 c && leb c 122 then c - 32 else c

abbrev pub lower : Text → Text
lower = map lower_char

-- `eq_ignore_ascii_case`
abbrev pub eq_ignore_case : Text → Text → Bool
eq_ignore_case s t = text_eq (lower s) (lower t)

-- `strip_prefix`
abbrev pub strip_prefix : Text → Text → Option Text
strip_prefix [] s = some s
strip_prefix (p ∷ ps) [] = none
strip_prefix (p ∷ ps) (c ∷ s) = if p == c then strip_prefix ps s else none

abbrev pub is_some {ℓ} : {A : Type ℓ} → Option A → Bool
is_some none = false
is_some (some a) = true

-- `s.starts_with(p)`, with the pattern first
abbrev pub has_prefix : Text → Text → Bool
has_prefix p s = is_some (strip_prefix p s)

abbrev pub has_suffix : Text → Text → Bool
has_suffix p s = has_prefix (reverse p) (reverse s)

-- `s.contains(p)` for a non-empty text `p`
abbrev pub contains_text : Text → Text → Bool
contains_text p [] = has_prefix p []
contains_text p (c ∷ s) = has_prefix p (c ∷ s) || contains_text p s

abbrev pub contains_char : ℕ → Text → Bool
contains_char c s = any (λ d. c == d) s

abbrev pub is_empty {ℓ} : {A : Type ℓ} → List A → Bool
is_empty [] = true
is_empty (c ∷ s) = false

abbrev pub cons_part : Bool → ℕ → List Text → List Text
cons_part true d parts = [] ∷ parts
cons_part false d [] = (d ∷ []) ∷ []
cons_part false d (p ∷ parts) = (d ∷ p) ∷ parts

-- `s.split(c)`: one part more than there are separators
unfoldable pub split : ℕ → Text → List Text
split c [] = [] ∷ []
split c (d ∷ s) = cons_part (d == c) d (split c s)

-- `parts.join(sep)`, with the separator a single character
unfoldable pub join : ℕ → List Text → Text
join c [] = []
join c (p ∷ []) = p
join c (p ∷ (q ∷ ps)) = p ++ (c ∷ join c (q ∷ ps))

abbrev pub cons_left : ℕ → Option (Text × Text) → Option (Text × Text)
cons_left c none = none
cons_left c (some (a, b)) = some (c ∷ a, b)

-- `trim_end_matches(p)`
unfoldable pub trim_end : (ℕ → Bool) → Text → Text
trim_end p [] = []
trim_end p (c ∷ s) = let rest = trim_end p s in if is_empty rest && p c then [] else c ∷ rest

abbrev pub trim_start : (ℕ → Bool) → Text → Text
trim_start p [] = []
trim_start p (c ∷ s) = let rest = trim_start p s in if p c then rest else c ∷ s

-- `str::trim`
unfoldable pub trim : Text → Text
unfolding trim_end is_whitespace
trim s = trim_end is_whitespace (trim_start is_whitespace s)

-- `s.get(n..)` with `&s[..n]`: nothing where byte `n` is past the end or inside a character
unfoldable pub split_at_byte : ℕ → Text → Option (Text × Text)
split_at_byte n [] = if n == 0 then some ([], []) else none
split_at_byte n (c ∷ s) =
    let rest = split_at_byte (n - utf8_len c) s in
    if n == 0 then some ([], c ∷ s) else if leb (utf8_len c) n then cons_left c rest else none

-- `char::is_control`: general category Cc
abbrev pub is_control : ℕ → Bool
is_control c = leb c 31 || (leb 127 c && leb c 159)

pub text_eq_refl : (s : Text) → text_eq s s ≡ true
text_eq_refl [] = refl
text_eq_refl (c ∷ s) = ground (arith, text_eq_refl s)

pub text_eq→≡ : (s t : Text) → text_eq s t ≡ true → s ≡ t
text_eq→≡ [] [] h = refl
text_eq→≡ [] (d ∷ t) h = cc
text_eq→≡ (c ∷ s) [] h = cc
text_eq→≡ (c ∷ s) (d ∷ t) h = ground (arith, text_eq→≡ s t)

pub codes-injective : (s t : String) → codes s ≡ codes t → s ≡ t
codes-injective String.[] String.[] h = refl
codes-injective String.[] (String.◌∷◌ d t) h = cc
codes-injective (String.◌∷◌ c s) String.[] h = cc
codes-injective (String.◌∷◌ c s) (String.◌∷◌ d t) h =
    ap₂ String.◌∷◌ (Char-path c d (cc)) (codes-injective s t (cc))
