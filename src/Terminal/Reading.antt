-- ===== src/Terminal/Reading.antt =====
-- The rules by which a Windows program reads the arguments in its command line, as the C runtime
-- documents them, and that they undo `argv_to_windows_command_line`.
use vor_commander.Base.{
  ℕ, zero, suc, ◌+◌, ◌*◌, ◌/◌, ◌%◌, ◌≡◌, refl, sym, ap, ◌∙◌, Bool, true, false, not, List, [], ◌∷◌,
  ◌++◌, ◌||◌, ◌==◌, map, ok, arith, inl, inr, Bool-cases, if◌then◌else◌, any, ==_iff, ||-false,
  >>=-eq-ok, reject_if-eq-ok,
}
use vor_commander.Base.Text.{Text, is_whitespace, contains_char, join}
use vor_commander.Terminal.Types.{interior_nul, empty_arguments}
use vor_commander.Terminal.CommandLine.{
  backslashes, quote_chars, needs_quotes, quote_windows_arg, encode_args, has_program,
  argv_to_windows_command_line,
}

-- Between two arguments, in one, inside quotes, or just behind a quote that may close them.
pub data Mode : Type 0 where
  between word quoted closing : Mode

abbrev pub is_blank_char : ℕ → Bool
is_blank_char c = c == 32 || c == 9

-- a text in front of the first argument
abbrev pub onto : Text → List Text → List Text
onto s [] = s ∷ []
onto s (a ∷ args) = (s ++ a) ∷ args

-- after a character that is part of an argument
abbrev pub inside : Mode → Mode
inside between = word
inside word = word
inside quoted = quoted
inside closing = word

-- after a quote that no backslash escapes
abbrev pub at_quote : Mode → Mode
at_quote between = quoted
at_quote word = quoted
at_quote quoted = closing
at_quote closing = quoted

-- A second quote behind one that might have closed stands for a quote.
abbrev pub doubled : Mode → Text
doubled closing = 34 ∷ []
doubled between = []
doubled word = []
doubled quoted = []

abbrev pub after_blank : Mode → Text → List Text → List Text → List Text
after_blank between s kept args = args
after_blank word s kept args = s ∷ args
after_blank quoted s kept args = kept
after_blank closing s kept args = s ∷ args

abbrev pub at_end : Mode → Text → List Text
at_end between s = []
at_end word s = s ∷ []
at_end quoted s = s ∷ []
at_end closing s = s ∷ []

-- The arguments in a text, with the backslashes just read.
unfoldable pub read_args : Mode → ℕ → Text → List Text
read_args m n [] = at_end m (backslashes n)
read_args m n (c ∷ s) =
    let counted = read_args (inside m) (suc n) s in
    let escaped = onto (backslashes (n / 2) ++ (34 ∷ [])) (read_args (inside m) 0 s) in
    let toggled = onto (backslashes (n / 2) ++ doubled m) (read_args (at_quote m) 0 s) in
    let kept = onto (backslashes n ++ (c ∷ [])) (read_args (inside m) 0 s) in
    let blank = after_blank m (backslashes n) kept (read_args between 0 s) in
    if c == 92
    then counted
    else if c == 34
    then if n % 2 == 0 then toggled else escaped
    else if is_blank_char c
    then blank
    else kept

slashes_shift : (n : ℕ) (s : Text) → backslashes n ++ (92 ∷ s) ≡ backslashes (suc n) ++ s
slashes_shift zero s = refl
slashes_shift (suc n) s = ap (λ l. 92 ∷ l) (slashes_shift n s)

-- Each argument behind a space of its own.
abbrev spaced : List Text → Text
spaced [] = []
spaced (a ∷ args) = 32 ∷ (quote_windows_arg a ++ spaced args)

read-spaced :
    (n : ℕ) (args : List Text)
    → read_args word n (spaced args) ≡ backslashes n ∷ read_args between 0 (spaced args)
unfolding read_args
read-spaced n [] = refl
read-spaced n (a ∷ args) = refl

closing-spaced :
    (args : List Text) → read_args closing 0 (spaced args) ≡ [] ∷ read_args between 0 (spaced args)
unfolding read_args
closing-spaced [] = refl
closing-spaced (a ∷ args) = refl

append_assoc_text : (a b c : Text) → (a ++ b) ++ c ≡ a ++ (b ++ c)
append_assoc_text [] b c = refl
append_assoc_text (x ∷ a) b c = ap (λ l. x ∷ l) (append_assoc_text a b c)

read-slashes :
    (k j : ℕ) (x : Text) → read_args quoted k (backslashes j ++ x) ≡ read_args quoted (k + j) x
unfolding read_args
read-slashes k zero x = ap (λ i. read_args quoted i x) (omega arith)
read-slashes k (suc j) x = read-slashes (suc k) j x ∙ ap (λ i. read_args quoted i x) (omega arith)

blank-false : (c : ℕ) → is_whitespace c ≡ false → is_blank_char c ≡ false
unfolding is_whitespace
blank-false c h = ground arith

append-nil_text : (a : Text) → a ++ [] ≡ a
append-nil_text [] = refl
append-nil_text (x ∷ a) = ap (λ l. x ∷ l) (append-nil_text a)

-- an argument that stands without quotes
read_bare :
    (n : ℕ) (s : Text) (args : List Text)
    → any needs_quotes s ≡ false
    → read_args word n (s ++ spaced args) ≡ (backslashes n ++ s) ∷ read_args between 0 (spaced args)
unfolding read_args
read_bare n [] args h =
    read-spaced n args ∙ ap (λ l. l ∷ read_args between 0 (spaced args)) (sym (append-nil_text _))
read_bare n (c ∷ s) args h =
    let (needed, more) = ||-false (needs_quotes c) (any needs_quotes s) h in
    let (white, quote) = ||-false (is_whitespace c) (c == 34) needed in
    elim (Bool-cases (c == 92)) [
      | inl e ↦ rw e (
          read_bare (suc n) s args more
          ∙ ap (λ l. l ∷ read_args between 0 (spaced args)) (sym (slashes_shift n s))
          ∙ ap (λ d. (backslashes n ++ (d ∷ s)) ∷ read_args between 0 (spaced args))
              (sym ((==_iff c 92).0 e)))
      | inr e ↦
          rw (e, quote, blank-false c white)
            (ap (onto (backslashes n ++ (c ∷ []))) (read_bare 0 s args more)
              ∙ ap (λ l. l ∷ read_args between 0 (spaced args))
                  (append_assoc_text (backslashes n) (c ∷ []) s))
    ]

read_quote_even :
    (n : ℕ) (args : List Text)
    → read_args quoted (n * 2) (34 ∷ spaced args)
      ≡ (backslashes n) ∷ read_args between 0 (spaced args)
unfolding read_args
read_quote_even n args =
    let even : (n * 2 % 2 == 0) ≡ true = ground arith in
    let half : n * 2 / 2 ≡ n = omega arith in
    rw (even, half, closing-spaced args)
      (ap (λ l. l ∷ read_args between 0 (spaced args))
        (append-nil_text (backslashes n ++ []) ∙ append-nil_text (backslashes n)))

read_quote_odd :
    (n : ℕ) (x : Text)
    → read_args quoted (n * 2 + 1) (34 ∷ x)
      ≡ onto (backslashes n ++ (34 ∷ [])) (read_args quoted 0 x)
unfolding read_args
read_quote_odd n x =
    let odd : ((n * 2 + 1) % 2 == 0) ≡ false = ground arith in
    let half : (n * 2 + 1) / 2 ≡ n = omega arith in rw (odd, half)

read_kept_quoted :
    (n c : ℕ) (x : Text)
    → (c == 92) ≡ false
    → (c == 34) ≡ false
    → read_args quoted n (c ∷ x) ≡ onto (backslashes n ++ (c ∷ [])) (read_args quoted 0 x)
unfolding read_args
read_kept_quoted n c x e q = rw (e, q) (ground arith)

-- an argument that stands in quotes
read_quoted :
    (n : ℕ) (s : Text) (args : List Text)
    → read_args quoted 0 (quote_chars n s ++ spaced args)
      ≡ (backslashes n ++ s) ∷ read_args between 0 (spaced args)
unfolding quote_chars
read_quoted n [] args =
    ap (read_args quoted 0) (append_assoc_text (backslashes (n * 2)) (34 ∷ []) (spaced args))
    ∙ read-slashes 0 (n * 2) (34 ∷ spaced args)
    ∙ ap (λ k. read_args quoted k (34 ∷ spaced args)) (omega arith)
    ∙ read_quote_even n args
    ∙ ap (λ l. l ∷ read_args between 0 (spaced args)) (sym (append-nil_text (backslashes n)))
read_quoted n (c ∷ s) args = elim (Bool-cases (c == 92)) [
  | inl e ↦ rw e (
      read_quoted (suc n) s args
      ∙ ap (λ l. l ∷ read_args between 0 (spaced args)) (sym (slashes_shift n s))
      ∙ ap (λ d. (backslashes n ++ (d ∷ s)) ∷ read_args between 0 (spaced args))
          (sym ((==_iff c 92).0 e)))
  | inr e ↦ elim (Bool-cases (c == 34)) [
    | inl q ↦
        rw (e, q)
          (ap (read_args quoted 0)
              (append_assoc_text (backslashes (n * 2 + 1)) (34 ∷ quote_chars 0 s) (spaced args))
            ∙ read-slashes 0 (n * 2 + 1) (34 ∷ (quote_chars 0 s ++ spaced args))
            ∙ ap (λ k. read_args quoted k (34 ∷ (quote_chars 0 s ++ spaced args))) (omega arith)
            ∙ read_quote_odd n (quote_chars 0 s ++ spaced args)
            ∙ ap (onto (backslashes n ++ (34 ∷ []))) (read_quoted 0 s args)
            ∙ ap (λ l. l ∷ read_args between 0 (spaced args))
                (append_assoc_text (backslashes n) (34 ∷ []) s)
            ∙ ap (λ d. (backslashes n ++ (d ∷ s)) ∷ read_args between 0 (spaced args))
                (sym ((==_iff c 34).0 q)))
    | inr q ↦
        rw (e, q)
          (ap (read_args quoted 0)
              (append_assoc_text (backslashes n) (c ∷ quote_chars 0 s) (spaced args))
            ∙ read-slashes 0 n (c ∷ (quote_chars 0 s ++ spaced args))
            ∙ ap (λ k. read_args quoted k (c ∷ (quote_chars 0 s ++ spaced args))) (omega arith)
            ∙ read_kept_quoted n c (quote_chars 0 s ++ spaced args) e q
            ∙ ap (onto (backslashes n ++ (c ∷ []))) (read_quoted 0 s args)
            ∙ ap (λ l. l ∷ read_args between 0 (spaced args))
                (append_assoc_text (backslashes n) (c ∷ []) s))
  ]
]

read_first :
    (c : ℕ) (x : Text)
    → is_blank_char c ≡ false
    → (c == 34) ≡ false
    → read_args between 0 (c ∷ x) ≡ read_args word 0 (c ∷ x)
unfolding read_args
read_first c x b q = rw (q, b)

read_argument :
    (a : Text) (args : List Text)
    → read_args between 0 (quote_windows_arg a ++ spaced args)
      ≡ a ∷ read_args between 0 (spaced args)
unfolding quote_windows_arg
read_argument [] args = unfold read_args in rw (closing-spaced args)
read_argument (c ∷ s) args = elim (Bool-cases (any needs_quotes (c ∷ s))) [
  | inl e ↦ rw e (unfold read_args in rw (read_quoted 0 (c ∷ s) args))
  | inr e ↦
      let (needed, more) = ||-false (needs_quotes c) (any needs_quotes s) e in
      let (white, quote) = ||-false (is_whitespace c) (c == 34) needed in
      rw e
        (read_first c (s ++ spaced args) (blank-false c white) quote ∙ read_bare 0 (c ∷ s) args e)
]

read-encoded : (args : List Text) → read_args between 0 (spaced args) ≡ args
unfolding read_args
read-encoded [] = refl
read-encoded (a ∷ args) = read_argument a args ∙ ap (λ l. a ∷ l) (read-encoded args)

join-spaced :
    (p : Text) (args : List Text)
    → join 32 (map quote_windows_arg (p ∷ args)) ≡ quote_windows_arg p ++ spaced args
unfolding join
join-spaced p [] = sym (append-nil_text _)
join-spaced p (a ∷ args) = ap (λ l. quote_windows_arg p ++ (32 ∷ l)) (join-spaced a args)

encode_args-eq-ok :
    (args encoded : List Text)
    → encode_args args ≡ ok encoded
    → encoded ≡ map quote_windows_arg args
unfolding encode_args
encode_args-eq-ok [] encoded h = cc
encode_args-eq-ok (a ∷ args) encoded h =
    let (_, h1) = reject_if-eq-ok (contains_char 0 a) interior_nul _ h in
    let (more, e, h2) = >>=-eq-ok (encode_args args) _ h1 in cc (encode_args-eq-ok args more e)

-- Whatever command line is built, it is the program in its quotes and a rest, and a program that
-- reads the rest by the documented rules gets exactly the arguments: none is split, joined, dropped
-- or changed, whatever spaces, quotes and backslashes are in them.
pub read-command_line :
    (program line : Text) (args : List Text)
    → argv_to_windows_command_line (program ∷ args) ≡ ok line
    → (rest : Text) × (line ≡ quote_windows_arg program ++ rest) × (read_args between 0 rest ≡ args)
unfolding argv_to_windows_command_line
read-command_line program line args h =
    let (_, h1) = reject_if-eq-ok (not (has_program (program ∷ args))) empty_arguments _ h in
    let (encoded, e, h2) = >>=-eq-ok (encode_args (program ∷ args)) _ h1 in
    (
      spaced args,
      cc (
        h2,
        ap (join 32) (encode_args-eq-ok (program ∷ args) encoded e),
        join-spaced program args,
      ),
      read-encoded args,
    )
