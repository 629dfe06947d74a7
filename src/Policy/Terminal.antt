-- ===== src/Policy/Terminal.antt =====
-- The tests on command lines in crates/vor-policy/src/lib.rs: inline evaluation, and the exact safe
-- list. A command line is its `argv`, each argument a text.
use mathlib.Core.List.{reverse}
use vor_commander.Base.{
  String, Bool, true, false, not, Option, none, some, List, [], ◌∷◌, ◌==◌, leb, ltb, ◌&&◌, ◌||◌,
  if◌then◌else◌, any, all, filter,
}
use vor_commander.Base.Text.{
  Text, codes, text_eq, lower, strip_prefix, has_prefix, contains_char, is_empty, byte_len,
  is_blank, eq_ignore_case,
}
use vor_commander.WinPath.{is_separator, is_one_of}
use vor_commander.Policy.Config.{Externals, SafeCommandRule}

-- `argument.rsplit(['\\', '/']).next()`
abbrev pub after_separators : Text → Text → Text
after_separators last [] = last
after_separators last (c ∷ s) = after_separators (if is_separator c then s else last) s

abbrev pub strip_suffix : Text → Text → Option Text
strip_suffix p s = elim (strip_prefix (reverse p) (reverse s)) [
  | none ↦ none
  | some t ↦ some (reverse t)
]

abbrev pub strip_first_suffix : List String → Text → Text
strip_first_suffix [] s = s
strip_first_suffix (p ∷ ps) s =
    let rest = strip_first_suffix ps s in
    elim (strip_suffix (codes p) s) [ none ↦ rest | some t ↦ t ]

unfoldable pub executable_stem : Text → Text
executable_stem executable =
    strip_first_suffix (".exe" ∷ ".cmd" ∷ ".bat" ∷ ".com" ∷ [])
      (lower (after_separators executable executable))

abbrev pub equals_sign_after : Option Text → Bool
equals_sign_after none = false
equals_sign_after (some rest) = has_prefix (codes "=") rest

-- the tests of the inner loop, for one trigger
unfoldable pub is_triggered : Bool → Text → String → Bool
is_triggered powershell normalized trigger =
    text_eq normalized (codes trigger)
    || (has_prefix (codes "--") (codes trigger)
        && equals_sign_after (strip_prefix (codes trigger) normalized))
    || (byte_len (codes trigger) == 2
        && has_prefix (codes "-") (codes trigger)
        && has_prefix (codes trigger) normalized
        && ltb (byte_len (codes trigger)) (byte_len normalized))
    || (powershell
        && text_eq (codes trigger) (codes "-command")
        && is_one_of ("-c" ∷ "/c" ∷ []) normalized)

-- the loop over the arguments
unfoldable pub scan_arguments : List String → Bool → List Text → Bool
scan_arguments triggers powershell [] = false
scan_arguments triggers powershell (argument ∷ rest) =
    let normalized = lower argument in
    let later = scan_arguments triggers powershell rest in
    if text_eq normalized (codes "--")
    then false
    else if any (is_triggered powershell normalized) triggers
    then true
    else if not
        (has_prefix (codes "-") normalized || (powershell && has_prefix (codes "/") normalized))
    then false
    else later

unfoldable pub cmd_is_inline_eval : List Text → Bool
cmd_is_inline_eval [] = false
cmd_is_inline_eval (argument ∷ rest) =
    let normalized = lower argument in
    let later = cmd_is_inline_eval rest in
    if has_prefix (codes "/c") normalized
      || has_prefix (codes "/k") normalized
      || has_prefix (codes "/r") normalized
    then true
    else if not (has_prefix (codes "/") normalized)
    then false
    else later

abbrev pub valued : List String
valued =
    "executionpolicy" ∷ "windowstyle" ∷ "version" ∷ "workingdirectory" ∷ "configurationname"
    ∷ "configurationfile" ∷ "inputformat" ∷ "outputformat" ∷ "encodedarguments" ∷ "psconsolefile"
    ∷ "settingsfile" ∷ "custompipename" ∷ []

abbrev pub valued_aliases : List String
valued_aliases = "ep" ∷ "ex" ∷ "w" ∷ "v" ∷ "wd" ∷ "ea" ∷ "if" ∷ "of" ∷ []

-- what one argument makes of the loop: return, go on, or go on after the next argument
pub data Reading : Type 0 where
  return : Bool → Reading
  next : Reading
  skip_value : Reading

abbrev pub parameter_name : Text → Option Text
parameter_name normalized = elim (strip_prefix (codes "--") normalized) [
  | some name ↦ some name
  | none ↦ elim (strip_prefix (codes "-") normalized) [
    | some name ↦ some name
    | none ↦ strip_prefix (codes "/") normalized
  ]
]

abbrev before_colon : Text → Text
before_colon [] = []
before_colon (c ∷ s) = let rest = before_colon s in if c == 58 then [] else c ∷ rest

unfoldable pub read_name : Text → Reading
read_name whole =
    let inline_value = contains_char 58 whole in
    let name = before_colon whole in
    if is_empty name
    then next
    else if is_one_of ("e" ∷ "ec" ∷ "cwa" ∷ []) name
        || has_prefix name (codes "command")
        || (leb 2 (byte_len name) && has_prefix name (codes "encodedcommand"))
        || (leb 8 (byte_len name) && has_prefix name (codes "commandwithargs"))
    then return true
    else if text_eq name (codes "f") || (leb 2 (byte_len name) && has_prefix name (codes "file"))
    then return false
    else if not inline_value
        && (is_one_of valued_aliases name
            || any (λ full. leb 3 (byte_len name) && has_prefix name (codes full)) valued)
    then skip_value
    else next

unfoldable pub read_argument : Bool → Text → Reading
read_argument windows_powershell argument = elim (parameter_name (lower argument)) [
  | none ↦ return windows_powershell
  | some name ↦ read_name name
]

unfoldable pub powershell_is_inline_eval : Bool → List Text → Bool
powershell_is_inline_eval windows_powershell [] = false
powershell_is_inline_eval windows_powershell (argument ∷ []) =
    elim (read_argument windows_powershell argument) [
      | return b ↦ b
      | next ↦ false
      | skip_value ↦ false
    ]
powershell_is_inline_eval windows_powershell (argument ∷ (value ∷ rest)) =
    elim (read_argument windows_powershell argument) [
      | return b ↦ b
      | next ↦ powershell_is_inline_eval windows_powershell (value ∷ rest)
      | skip_value ↦ powershell_is_inline_eval windows_powershell rest
    ]

abbrev is_python : Text → Bool
is_python executable =
    is_one_of ("python" ∷ "python3" ∷ "py" ∷ []) executable
    || has_prefix (codes "python3.") executable

unfoldable pub command_is_inline_eval : List Text → Bool
unfolding executable_stem
command_is_inline_eval [] = false
command_is_inline_eval (program ∷ arguments) =
    let executable = executable_stem program in
    if is_python executable
    then scan_arguments ("-c" ∷ []) false arguments
    else if text_eq executable (codes "node")
    then scan_arguments ("-e" ∷ "--eval" ∷ "-p" ∷ "--print" ∷ []) false arguments
    else if is_one_of ("ruby" ∷ "perl" ∷ []) executable
    then scan_arguments ("-e" ∷ []) false arguments
    else if text_eq executable (codes "osascript")
    then scan_arguments ("-e" ∷ []) false arguments
    else if is_one_of ("powershell" ∷ "pwsh" ∷ []) executable
    then powershell_is_inline_eval (text_eq executable (codes "powershell")) arguments
      || scan_arguments ("-command" ∷ "-encodedcommand" ∷ []) true arguments
    else if text_eq executable (codes "cmd")
    then cmd_is_inline_eval arguments || scan_arguments ("/c" ∷ "/k" ∷ []) true arguments
    else if is_one_of ("bash" ∷ "sh" ∷ "zsh" ∷ "fish" ∷ "dash" ∷ "ksh" ∷ []) executable
    then scan_arguments ("-c" ∷ "--command" ∷ []) false arguments
    else if text_eq executable (codes "wsl")
    then not (is_empty arguments)
    else false

abbrev pub contains_shell_control : Text → Bool
contains_shell_control argument = any (λ c. any (λ d. c == d) (codes ";|&><\n\r")) argument

abbrev pub forbidden_safe_argument : Text → Bool
forbidden_safe_argument argument =
    let normalized = lower argument in
    text_eq normalized (codes "-c")
    || has_prefix (codes "-c=") normalized
    || text_eq normalized (codes "/c")
    || has_prefix (codes "/c:") normalized
    || text_eq normalized (codes "--exec")
    || has_prefix (codes "--exec=") normalized

abbrev pub or_empty : Option Text → Text
or_empty none = []
or_empty (some t) = t

abbrev pub filter_map {ℓ κ} : {A : Type ℓ} {B : Type κ} → (A → Option B) → List A → List B
filter_map f [] = []
filter_map f (a ∷ xs) = let rest = filter_map f xs in elim (f a) [ none ↦ rest | some b ↦ b ∷ rest ]

abbrev pub find {ℓ} : {A : Type ℓ} → (A → Bool) → List A → Option A
find p [] = none
find p (a ∷ xs) = let rest = find p xs in if p a then some a else rest

module _ (x : Externals) where
  unfoldable pub executable_name_matches : Text → Text → Bool
  executable_name_matches path configured =
      let actual = or_empty (x.file_stem path) in
      let wanted = or_empty (x.file_stem configured) in
      if x.windows then eq_ignore_case actual wanted else text_eq actual wanted

  unfoldable pub same_executable : Text → Text → Bool
  same_executable left right = if x.windows then eq_ignore_case left right else text_eq left right

  unfoldable pub forbidden_safe_executable : Text → Bool
  forbidden_safe_executable path =
      is_one_of ("bat" ∷ "cmd" ∷ []) (lower (or_empty (x.extension path)))
      || is_one_of
          ("cmd" ∷ "powershell" ∷ "pwsh" ∷ "sh" ∷ "bash" ∷ "dash" ∷ "zsh" ∷ "fish" ∷ "wsl" ∷ [])
          (lower (or_empty (x.file_stem path)))

  unfoldable pub resolve_safe_executable_path : Text → List Text → Option Text
  resolve_safe_executable_path value allowed_executables =
      let trusted = filter_map x.canonicalize (filter x.is_absolute allowed_executables) in
      if x.is_absolute value || any is_separator value
      then elim (x.canonicalize value) [
        | none ↦ none
        | some resolved ↦ if any (same_executable resolved) trusted then some resolved else none
      ]
      else find (λ path. executable_name_matches path value) trusted

  -- `argv[1..] == rule.arguments`
  abbrev pub same_arguments : List Text → List String → Bool
  same_arguments [] [] = true
  same_arguments [] (r ∷ rs) = false
  same_arguments (a ∷ xs) [] = false
  same_arguments (a ∷ xs) (r ∷ rs) = text_eq a (codes r) && same_arguments xs rs

  unfoldable pub rule_matches : Text → List Text → SafeCommandRule → Bool
  rule_matches executable arguments rule =
      not (is_blank (codes rule.executable))
      && all (λ a. not (contains_shell_control (codes a))) rule.arguments
      && executable_name_matches executable (codes rule.executable)
      && same_arguments arguments rule.arguments

  -- `argv[0]` is there: the caller has refused an empty `argv`
  unfoldable pub safe_command_matches : List Text → List SafeCommandRule → List Text → Bool
  safe_command_matches [] rules allowed_executables = false
  safe_command_matches (program ∷ arguments) rules allowed_executables =
      elim (resolve_safe_executable_path program allowed_executables) [
        | none ↦ false
        | some executable ↦
            if any contains_shell_control (program ∷ arguments)
              || any forbidden_safe_argument arguments
              || forbidden_safe_executable executable
            then false
            else any (rule_matches executable arguments) rules
      ]
