-- ===== src/Policy/Normalize/Idempotent.antt =====
-- The normal form of a path is its own normal form.
use mathlib.Core.Path.{subst}
use vor_commander.Base.{
  ℕ, ◌≡◌, refl, sym, ap, ◌∙◌, true, false, not, List, [], ◌∷◌, ◌++◌, map, ◌==◌, arith, any, All,
  Option, none, some, Bool-cases, inl, inr, Option-cases,
}
use vor_commander.Base.Text.{Text, lower, split, join, upper_char, trim_end, is_empty}
use vor_commander.Base.TextLaws.{lower_idem}
use vor_commander.Base.Splitting.{
  Lacks, Lacks-append, All-split_lacking, All-filter, lower-join, any-map,
}
use vor_commander.WinPath.{components, slashes}
use vor_commander.Policy.Config.{Externals}
use vor_commander.Policy.Normalize.{
  is_ambiguous, has_short_name_alias, split_windows_path, join_windows_path, is_ascii_alphabetic,
  push_parts, close_drive, expand_from, expand_after, expand_short_names, finish_expanded, reread,
  finish_split, normalize_windows_path,
}
use vor_commander.Policy.Normalize.Split.{
  IsComponent, components-IsComponent, components-join, All-lower, is_ambiguous-lower,
  has_short_name_alias-lower,
}

-- What `split_windows_path` returns: a drive letter and unambiguous components without `/`.
pub record IsSplit (drive : ℕ) (parts : List Text) : Type 0 where
  pub letter : is_ascii_alphabetic drive ≡ true
  pub upper : upper_char drive ≡ drive
  pub component : All IsComponent parts
  pub clear : any is_ambiguous parts ≡ false
  pub no_slash : All (Lacks 47) parts

split_windows_path-IsSplit :
    (s : Text) (drive : ℕ) (parts : List Text)
    → Lacks 47 s
    → split_windows_path s ≡ some (drive, parts)
    → IsSplit drive parts
unfolding split_windows_path
split_windows_path-IsSplit (d ∷ (c ∷ (b ∷ rest))) drive parts l h =
    let inside : All IsComponent (components rest) = components-IsComponent rest in
    let bare : All (Lacks 47) (components rest) =
      All-filter (Lacks 47) (λ p. not (is_empty p)) (split 92 rest)
        (All-split_lacking 92 47 rest (ground arith)) in
    let e : components rest ≡ parts = ground arith in
    record {
      letter = ground arith;
      upper = ground arith;
      component = subst (All IsComponent) e inside;
      clear = ground arith;
      no_slash = subst (All (Lacks 47)) e bare;
    }
split_windows_path-IsSplit _ drive parts l h = cc

-- The path that is put together from these is split into them again, in lower case.
split-join_windows_path :
    (drive : ℕ) (parts : List Text)
    → IsSplit drive parts
    → split_windows_path (join_windows_path drive parts) ≡ some (drive, map lower parts)
unfolding split_windows_path join_windows_path
split-join_windows_path drive parts v =
    rw (lower-join parts, components-join (map lower parts) (All-lower parts v.component))
      (ground (
        arith,
        any-map is_ambiguous lower is_ambiguous parts is_ambiguous-lower,
        v.letter,
        v.upper,
        v.clear,
      ))

join_windows_path-lower :
    (drive : ℕ) (parts : List Text)
    → join_windows_path drive (map lower parts) ≡ join_windows_path drive parts
unfolding join_windows_path
join_windows_path-lower drive parts = cc (lower-join parts, lower_idem (join 92 parts))

slashes_lacking : (s : Text) → Lacks 47 s → slashes s ≡ s
slashes_lacking [] h = refl
slashes_lacking (c ∷ s) h = ground (arith, slashes_lacking s)

Lacks-slashes : (s : Text) → Lacks 47 (slashes s)
Lacks-slashes [] = refl
Lacks-slashes (c ∷ s) = ground (arith, Lacks-slashes s)

Lacks-lower_slash : (s : Text) → Lacks 47 s → Lacks 47 (lower s)
Lacks-lower_slash [] h = refl
Lacks-lower_slash (c ∷ s) h = ground (arith, Lacks-lower_slash s)

Lacks-join : (ps : List Text) → All (Lacks 47) ps → Lacks 47 (join 92 ps)
unfolding join
Lacks-join [] h = refl
Lacks-join (p ∷ []) h = h.0
Lacks-join (p ∷ (q ∷ ps)) h =
    Lacks-append 47 p (92 ∷ join 92 (q ∷ ps)) h.0 (Lacks-join (q ∷ ps) h.1)

Lacks-join_windows_path :
    (drive : ℕ) (parts : List Text) → IsSplit drive parts → Lacks 47 (join_windows_path drive parts)
unfolding join_windows_path
Lacks-join_windows_path drive parts v =
    ground (arith, v.letter, Lacks-lower_slash (join 92 parts) (Lacks-join parts v.no_slash))

Lacks-push :
    (s : Text) (ps : List Text) → Lacks 47 s → All (Lacks 47) ps → Lacks 47 (push_parts s ps)
Lacks-push s [] h k = h
Lacks-push s (p ∷ ps) h k = Lacks-push (s ++ (92 ∷ p)) ps (Lacks-append 47 s (92 ∷ p) h k.0) k.1

Lacks-close : (s : Text) → Lacks 47 s → Lacks 47 (close_drive s)
Lacks-close s h = ground (arith, Lacks-append 47 s (92 ∷ []) h refl)

Lacks-trim_end : (s : Text) → Lacks 47 s → Lacks 47 (trim_end (λ c. c == 92) s)
unfolding trim_end
Lacks-trim_end [] h = refl
Lacks-trim_end (c ∷ s) h = ground (arith, Lacks-trim_end s)

-- What a normal form is made of.
pub record IsNormal (q : Text) : Type 0 where
  pub drive : ℕ
  pub parts : List Text
  pub joined : q ≡ join_windows_path drive parts
  pub is_split : IsSplit drive parts
  pub long_names : any has_short_name_alias parts ≡ false

-- `GetLongPathNameW` is given, and gives back, paths with backslashes.
pub record IsBackslashed (x : Externals) : Type 0 where
  pub long_path : (s long : Text) → x.long_path_name s ≡ some long → Lacks 47 long

module _ (x : Externals) (backslashed : IsBackslashed x) where
  Lacks-expand_from :
      (s : Text) (tail : List Text) {t : Text}
      → All (Lacks 47) tail
      → expand_from (x.long_path_name s) tail ≡ some t
      → Lacks 47 t
  Lacks-expand_from s tail {t} h e = elim (Option-cases (x.long_path_name s)) [
    | inl n ↦ ground (arith, n, e)
    | inr (long, k) ↦
        let trimmed = trim_end (λ c. c == 92) long in
        let whole : close_drive (push_parts trimmed tail) ≡ t = ground (arith, k, e) in
        subst (Lacks 47) whole (
          Lacks-close (push_parts trimmed tail)
            (Lacks-push trimmed tail (Lacks-trim_end long (backslashed.long_path s long k)) h))
  ]

  Lacks-expand_after :
      (drive : ℕ) (head tail : List Text) {t : Text}
      → All (Lacks 47) tail
      → expand_after x drive head tail ≡ some t
      → Lacks 47 t
  unfolding expand_after
  Lacks-expand_after drive head [] h e =
      Lacks-expand_from (drive ∷ (58 ∷ (92 ∷ join 92 head))) [] h e
  Lacks-expand_after drive head (p ∷ ps) {t} h e =
      elim (Option-cases (expand_after x drive (head ++ (p ∷ [])) ps)) [
        | inl n ↦ Lacks-expand_from (drive ∷ (58 ∷ (92 ∷ join 92 head))) (p ∷ ps) h (rw n at e)
        | inr (u, k) ↦
            Lacks-expand_after drive (head ++ (p ∷ [])) ps {t = t} h.1 (ground (arith, k, e))
      ]

  IsNormal-of_split :
      (o : Option (ℕ × List Text)) {q : Text}
      → ((drive : ℕ) (parts : List Text) → o ≡ some (drive, parts) → IsSplit drive parts)
      → finish_expanded o ≡ some q
      → IsNormal q
  IsNormal-of_split none v e = cc
  IsNormal-of_split (some (drive, parts)) v e = record {
    drive = drive;
    parts = parts;
    joined = ground arith;
    is_split = v drive parts refl;
    long_names = ground arith;
  }

  IsNormal-of_reread :
      (o : Option Text) {q : Text}
      → ((t : Text) → o ≡ some t → Lacks 47 t)
      → reread o ≡ some q
      → IsNormal q
  IsNormal-of_reread none l e = cc
  IsNormal-of_reread (some t) l e =
      IsNormal-of_split (split_windows_path t)
        (λ drive parts k. split_windows_path-IsSplit t drive parts (l t refl) k) e

  IsNormal-of_finish :
      (o : Option (ℕ × List Text)) {q : Text}
      → ((drive : ℕ) (parts : List Text) → o ≡ some (drive, parts) → IsSplit drive parts)
      → finish_split x o ≡ some q
      → IsNormal q
  unfolding expand_short_names
  IsNormal-of_finish none v e = cc
  IsNormal-of_finish (some (drive, parts)) v e =
      elim (Bool-cases (any has_short_name_alias parts)) [
        | inl short ↦
            IsNormal-of_reread (expand_short_names x drive parts)
              (λ t k. Lacks-expand_after drive [] parts (v drive parts refl).no_slash k)
              (rw short at e)
        | inr long ↦ record {
          drive = drive;
          parts = parts;
          joined = ground (arith, long, e);
          is_split = v drive parts refl;
          long_names = long;
        }
      ]

  -- What the policy matches a path as is a drive letter with components that are not empty, not
  -- `.` or `..`, no device names and no 8.3 aliases, joined by single backslashes in lower case.
  pub normalize-IsNormal :
      (input : Text) {q : Text} → normalize_windows_path x input ≡ some q → IsNormal q
  unfolding normalize_windows_path
  normalize-IsNormal input e =
      IsNormal-of_finish (split_windows_path (slashes input))
        (λ drive parts k.
          split_windows_path-IsSplit (slashes input) drive parts (Lacks-slashes input) k)
        e

  -- Normalizing a normalized path changes nothing.
  pub normalize_idem :
      (input : Text) {q : Text}
      → normalize_windows_path x input ≡ some q
      → normalize_windows_path x q ≡ some q
  unfolding normalize_windows_path
  normalize_idem input {q} e =
      let n = normalize-IsNormal input e in
      ap (λ s. finish_split x (split_windows_path s))
        (slashes_lacking q
          (subst (Lacks 47) (sym n.joined) (Lacks-join_windows_path n.drive n.parts n.is_split)))
      ∙ ap (λ s. finish_split x (split_windows_path s)) n.joined
      ∙ ap (finish_split x) (split-join_windows_path n.drive n.parts n.is_split)
      ∙ ground (
        arith,
        n.long_names,
        n.joined,
        join_windows_path-lower n.drive n.parts,
        any-map has_short_name_alias lower has_short_name_alias n.parts has_short_name_alias-lower,
      )
