-- ===== src/Examples/Paths.antt =====
-- Paths within roots, and their normal form.
use mathlib.Core.Path.{subst}
use vor_commander.Base.{
  arith, inl, inr, Bool-cases, if◌then◌else◌, ◌≡◌, ◌↔◌, refl, true, some, none,
}
use vor_commander.Base.Text.{Text, codes, text_eq, split, join, trim_end, split_at_byte}
use vor_commander.Base.Splitting.{Lacks}
use vor_commander.WinPath.{windows_path_within}
use vor_commander.WinPath.Within.{IsWithin-iff, IsWithin}
use vor_commander.Policy.Normalize.{
  normalize_windows_path, split_windows_path, join_windows_path, expand_short_names, expand_after,
  has_short_name_alias, is_ambiguous, is_reserved_windows_name,
}
use vor_commander.Policy.Config.{Externals}
use vor_commander.Policy.Normalize.Idempotent.{IsNormal, IsBackslashed, normalize-IsNormal}
use vor_commander.Examples.Data.{externals}

abbrev file_path : Text
file_path = codes "C:\\Work\\Reports\\a.txt"

IsWithin-iff_example :
    (windows_path_within file_path (codes "c:\\work\\") ≡ true)
    ↔ IsWithin file_path (codes "c:\\work\\")
IsWithin-iff_example = IsWithin-iff file_path (codes "c:\\work\\")

file_in_reports : windows_path_within file_path (codes "C:\\work\\reports") ≡ true
unfolding windows_path_within split_at_byte trim_end
file_in_reports = refl

reports_in_work : windows_path_within (codes "C:\\work\\reports") (codes "c:\\WORK\\") ≡ true
unfolding windows_path_within split_at_byte trim_end
reports_in_work = refl

-- A platform on which `C:\PROGRA~1` stands for `C:\Program Files`.
abbrev short_names : Externals
short_names = record externals {
  windows = true;
  long_path_name =
      λ s. if text_eq s (codes "C:\\PROGRA~1") then some (codes "C:\\Program Files") else none;
}

program_files-Lacks : Lacks 47 (codes "C:\\Program Files")
program_files-Lacks = ground arith

backslashed : IsBackslashed short_names
backslashed = record {
  long_path = λ s long h. elim (Bool-cases (text_eq s (codes "C:\\PROGRA~1"))) [
    | inl e ↦
        let p : codes "C:\\Program Files" ≡ long = ground (arith, rw e at h) in
        subst (Lacks 47) p program_files-Lacks
    | inr e ↦ absurd (ground (arith, rw e at h))
  ];
}

aliased :
    normalize_windows_path short_names (codes "c:/PROGRA~1//Tool.txt")
    ≡ some (codes "C:\\program files\\tool.txt")
unfolding normalize_windows_path split_windows_path join_windows_path expand_short_names
    expand_after has_short_name_alias is_ambiguous is_reserved_windows_name split join trim_end
aliased = refl

normalize-IsNormal_example : IsNormal (codes "C:\\program files\\tool.txt")
normalize-IsNormal_example =
    normalize-IsNormal short_names backslashed (codes "c:/PROGRA~1//Tool.txt") aliased
