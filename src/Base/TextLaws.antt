-- ===== src/Base/TextLaws.antt =====
-- Laws of the text functions: lower case, byte offsets, splitting and joining.
use Prim.Native.Nat.{ℕ, ◌+◌, ◌-◌}
use mathlib.Core.Path.{◌≡◌, refl}
use mathlib.Core.Logic.{inl, inr}
use mathlib.Core.List.{[], ◌∷◌, ◌++◌}
use mathlib.Core.Option.{some}
use native.Mathlib.Omega.{arith}
use vor_commander.Base.Tests.{Option-cases}
use vor_commander.Base.Text.{Text, utf8_len, byte_len, lower, lower_char, split_at_byte}

pub byte_len-lower : (s : Text) → byte_len (lower s) ≡ byte_len s
byte_len-lower [] = refl
byte_len-lower (c ∷ s) = ground (arith, byte_len-lower s)

pub lower_char_idem : (c : ℕ) → lower_char (lower_char c) ≡ lower_char c
lower_char_idem c = ground arith

pub lower_idem : (s : Text) → lower (lower s) ≡ lower s
lower_idem [] = refl
lower_idem (c ∷ s) = cc (lower_char_idem c, lower_idem s)

pub byte_len-append : (a b : Text) → byte_len (a ++ b) ≡ byte_len a + byte_len b
byte_len-append [] b = omega arith
byte_len-append (c ∷ a) b = omega (arith, byte_len-append a b)

add-sub_cancel : (m n : ℕ) → m + n - m ≡ n
add-sub_cancel m n = omega arith

-- Cutting at the byte length of a prefix gives that prefix.
pub split_at_byte-append : (a b : Text) → split_at_byte (byte_len a) (a ++ b) ≡ some (a, b)
unfolding split_at_byte
split_at_byte-append [] [] = refl
split_at_byte-append [] (d ∷ b) = refl
split_at_byte-append (c ∷ a) b =
    rw (add-sub_cancel (utf8_len c) (byte_len a), split_at_byte-append a b) (ground arith)

pub split_at_byte_sound :
    (n : ℕ) (s a b : Text) → split_at_byte n s ≡ some (a, b) → (s ≡ a ++ b) × (byte_len a ≡ n)
unfolding split_at_byte
split_at_byte_sound n [] a b h = ground arith
split_at_byte_sound n (c ∷ s) a b h = elim (Option-cases (split_at_byte (n - utf8_len c) s)) [
  | inl e ↦ ground (arith, e)
  | inr ((a', b'), e) ↦ ground (arith, e, split_at_byte_sound (n - utf8_len c) s a' b' e)
]

-- A text that lowers to `u ++ v` is cut where `u` ends.
pub lower-eq-append :
    (s u v : Text)
    → lower s ≡ u ++ v
    → (a : Text) × (b : Text) × (s ≡ a ++ b) × (lower a ≡ u) × (lower b ≡ v)
lower-eq-append s [] v h = ([], s, refl, refl, h)
lower-eq-append [] (d ∷ u) v h = cc
lower-eq-append (c ∷ s) (d ∷ u) v h =
    let (a, b, e, f, g) = lower-eq-append s u v (cc) in (c ∷ a, b, cc, cc, g)
