-- ===== src/WinPath.antt =====
-- crates/vor-path/src/lib.rs: containment of Windows paths, and the paths that are never written
-- without a signature. `path_within` and `sensitive_path` only convert a `Path` for these two.
pub mod Within
use vor_commander.Base.{
  ℕ, String, Bool, Option, none, some, List, [], ◌∷◌, ◌++◌, map, ◌==◌, ◌&&◌, ◌||◌, if◌then◌else◌,
  any, filter, not, true, false, get_last?,
}
use vor_commander.Base.Text.{
  Text, codes, text_eq, lower, eq_ignore_case, has_prefix, has_suffix, contains_text, split,
  is_empty, trim_end, split_at_byte, byte_len, strip_prefix,
}

-- `\` and `/`
abbrev pub backslash : ℕ
backslash = 92

abbrev pub is_separator : ℕ → Bool
is_separator c = c == 92 || c == 47

-- `suffix.starts_with(['\\', '/'])`
abbrev pub starts_with_separator : Text → Bool
starts_with_separator [] = false
starts_with_separator (c ∷ s) = is_separator c

abbrev below_root : Option (Text × Text) → Text → Bool
below_root none root = false
below_root (some (head, suffix)) root = eq_ignore_case head root && starts_with_separator suffix

unfoldable pub windows_path_within : Text → Text → Bool
windows_path_within path root =
    let p = trim_end is_separator path in
    let r = trim_end is_separator root in
    eq_ignore_case p r || below_root (split_at_byte (byte_len r) p) r

-- `path.replace('/', "\\")`
abbrev pub slashes : Text → Text
slashes = map (λ c. if c == 47 then 92 else c)

-- `parts.windows(n).any(|w| w == pattern)`
abbrev pub starts_with_parts : List Text → List Text → Bool
starts_with_parts [] ps = true
starts_with_parts (x ∷ xs) [] = false
starts_with_parts (x ∷ xs) (p ∷ ps) = text_eq p x && starts_with_parts xs ps

abbrev pub has_run : List Text → List Text → Bool
has_run pattern [] = false
has_run pattern (p ∷ ps) = starts_with_parts pattern (p ∷ ps) || has_run pattern ps

abbrev pub is_one_of : List String → Text → Bool
is_one_of names t = any (λ n. text_eq t (codes n)) names

-- `path.split('\\').filter(|p| !p.is_empty())`
abbrev pub components : Text → List Text
components s = filter (λ p. not (is_empty p)) (split 92 s)

abbrev or_default : Option Text → Text
or_default none = []
or_default (some t) = t

abbrev pub sensitive_extensions : List String
sensitive_extensions =
    "ps1" ∷ "psm1" ∷ "psd1" ∷ "bat" ∷ "cmd" ∷ "vbs" ∷ "wsf" ∷ "hta" ∷ "exe" ∷ "dll" ∷ "msi" ∷ "lnk"
    ∷ "url" ∷ "reg" ∷ "scr" ∷ "sh" ∷ "bash" ∷ "zsh" ∷ "fish" ∷ []

-- the first test: version control, keys, autostart, workflows, environment files
unfoldable pub sensitive_parts : List Text → Bool
sensitive_parts parts =
    any (is_one_of (".git" ∷ ".ssh" ∷ "startup" ∷ [])) parts
    || has_run (codes ".github" ∷ codes "workflows" ∷ []) parts
    || any (has_prefix (codes ".env")) parts

-- the second test: shell profiles, schedulers, the start menu, PowerShell profiles
unfoldable pub sensitive_place : Text → List Text → Text → Bool
sensitive_place normalized parts name =
    is_one_of (".bashrc" ∷ ".profile" ∷ ".zshrc" ∷ ".bash_profile" ∷ ".zprofile" ∷ []) name
    || has_run (codes ".config" ∷ codes "systemd" ∷ codes "user" ∷ []) parts
    || has_run (codes "etc" ∷ codes "cron.d" ∷ []) parts
    || has_run (codes "var" ∷ codes "spool" ∷ codes "cron" ∷ codes "crontabs" ∷ []) parts
    || has_run (codes "windows" ∷ codes "system32" ∷ codes "tasks" ∷ []) parts
    || contains_text (codes "\\start menu\\programs\\startup\\") normalized
    || has_suffix (codes "\\start menu\\programs\\startup") normalized
    || ((contains_text (codes "\\windowspowershell\\") normalized
          || contains_text (codes "\\powershell\\") normalized)
        && contains_text (codes "profile") name
        && has_suffix (codes ".ps1") name)

unfoldable pub sensitive_extension : Text → Bool
sensitive_extension name = any (λ e. has_suffix (46 ∷ codes e) name) sensitive_extensions

unfoldable pub sensitive_windows_path : Text → Bool
sensitive_windows_path path =
    let normalized = lower (slashes path) in
    let parts = components normalized in
    let name = or_default (get_last? parts) in
    sensitive_parts parts || sensitive_place normalized parts name || sensitive_extension name
