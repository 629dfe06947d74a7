-- ===== src/Terminal/CommandLine.antt =====
-- `argv_to_windows_command_line` and `quote_windows_arg` of crates/vor-terminal/src/lib.rs.
use vor_commander.Base.{
  ℕ, zero, suc, ◌+◌, ◌*◌, Bool, not, List, [], ◌∷◌, ◌++◌, ◌||◌, ◌==◌, Result, ok, reject_if, ◌>>=◌,
  ◌>>◌, if◌then◌else◌, any,
}
use vor_commander.Base.Text.{Text, is_whitespace, is_empty, contains_char, join}
use vor_commander.Terminal.Types.{TerminalError, empty_arguments, interior_nul}

-- `repeat_n('\\', n)`
abbrev pub backslashes : ℕ → Text
backslashes zero = []
backslashes (suc n) = 92 ∷ backslashes n

-- The loop over the characters, from a count of backslashes that are still to be written.
unfoldable pub quote_chars : ℕ → Text → Text
quote_chars n [] = backslashes (n * 2) ++ (34 ∷ [])
quote_chars n (c ∷ s) =
    let counted = quote_chars (suc n) s in
    let rest = quote_chars 0 s in
    if c == 92
    then counted
    else if c == 34
    then backslashes (n * 2 + 1) ++ (34 ∷ rest)
    else backslashes n ++ (c ∷ rest)

abbrev pub needs_quotes : ℕ → Bool
needs_quotes c = is_whitespace c || c == 34

unfoldable pub quote_windows_arg : Text → Text
quote_windows_arg arg =
    if is_empty arg
    then 34 ∷ 34 ∷ []
    else if not (any needs_quotes arg)
    then arg
    else 34 ∷ quote_chars 0 arg

unfoldable pub encode_args : List Text → Result TerminalError (List Text)
encode_args [] = ok []
encode_args (arg ∷ args) = do
  reject_if (contains_char 0 arg) interior_nul
  encoded ← encode_args args
  ok (quote_windows_arg arg ∷ encoded)

abbrev pub has_program : List Text → Bool
has_program [] = Bool.false
has_program (program ∷ args) = not (is_empty program)

unfoldable pub argv_to_windows_command_line : List Text → Result TerminalError Text
argv_to_windows_command_line argv = do
  reject_if (not (has_program argv)) empty_arguments
  encoded ← encode_args argv
  ok (join 32 encoded)
