-- ===== src/Base/Encoding.antt =====
-- Byte encodings that can be read back: UTF-8 and big-endian integers.
use Prim.Native.Nat.{ℕ}
use mathlib.Core.Path.{◌≡◌, refl}
use mathlib.Core.List.{List, [], ◌∷◌, ◌++◌}
use native.Mathlib.Omega.{arith}
use vor_commander.Base.Lists.{length}
use vor_commander.Base.Text.{Text, utf8, bytes, byte_len}

-- Two lists of one length in front of what follows are equal, and so is what follows.
pub append-injective {ℓ} :
    {A : Type ℓ} (xs ys us vs : List A)
    → length xs ≡ length ys
    → xs ++ us ≡ ys ++ vs
    → (xs ≡ ys) × (us ≡ vs)
append-injective [] [] us vs l h = (refl, h)
append-injective [] (y ∷ ys) us vs l h = absurd (omega arith)
append-injective (x ∷ xs) [] us vs l h = absurd (omega arith)
append-injective (x ∷ xs) (y ∷ ys) us vs l h =
    let (e, f) = append-injective xs ys us vs (omega arith) (cc) in (cc, f)

pub length-bytes : (s : Text) → length (bytes s) ≡ byte_len s
unfolding utf8
length-bytes [] = refl
length-bytes (c ∷ s) = ground (arith, length-bytes s)

pub utf8-injective : (c d : ℕ) (s t : List ℕ) → utf8 c ++ s ≡ utf8 d ++ t → (c ≡ d) × (s ≡ t)
unfolding utf8
utf8-injective c d s t h = (ground arith, ground arith)

pub bytes-injective : (s t : Text) → bytes s ≡ bytes t → s ≡ t
bytes-injective [] [] h = refl
bytes-injective [] (d ∷ t) h = absurd (unfold utf8 in ground (arith, h))
bytes-injective (c ∷ s) [] h = absurd (unfold utf8 in ground (arith, h))
bytes-injective (c ∷ s) (d ∷ t) h =
    let (e, f) = utf8-injective c d (bytes s) (bytes t) h in cc (e, bytes-injective s t f)
