-- ===== src/Examples/Policies.antt =====
-- Decisions of the policy of `Examples/Data`.
use vor_commander.Base.{◌≡◌, ◌⊎◌, ◌↔◌, refl, true, none, some}
use vor_commander.Base.Text.{Text, codes, split, join, trim, is_blank, is_whitespace}
use vor_commander.Base.Map.{get}
use vor_commander.Protocol.{PolicyDecisionKind, ActionRequest}
use vor_commander.Policy.Config.{RuleDecision, FilesystemRule}
use vor_commander.Policy.Normalize.{
  normalize_windows_path, split_windows_path, join_windows_path, is_ambiguous, has_short_name_alias,
  is_reserved_windows_name,
}
use vor_commander.Policy.Engine.{
  filesystem_decision, evaluate, decision, rule_for, terminal_exec_decision, terminal_argv,
  parameter,
}
use vor_commander.Policy.Terminal.{
  command_is_inline_eval, safe_command_matches, executable_stem, is_triggered, scan_arguments,
  executable_name_matches, same_executable, forbidden_safe_executable, resolve_safe_executable_path,
  rule_matches,
}
use vor_commander.Policy.Engine.Filesystem.{decision_by_longest, IsMatch, IsGoverning, access}
use vor_commander.Policy.Engine.Writes.{write_auto_iff, IsAutoWritable}
use vor_commander.Policy.Engine.Terminals.{IsSafe-list_exact, IsSafe}
use vor_commander.Examples.Data.{externals, engine, write_request, with_action}

file_normal :
    normalize_windows_path externals (codes "c:\\Work\\a.txt") ≡ some (codes "C:\\work\\a.txt")
unfolding normalize_windows_path split_windows_path join_windows_path has_short_name_alias
    is_ambiguous is_reserved_windows_name split join
file_normal = refl

decision_by_longest_example :
    ((filesystem_decision externals engine (codes "c:\\Work\\a.txt") true ≡ RuleDecision.deny)
      × ((root : Text) (rule : FilesystemRule)
          → ¬ IsMatch externals engine.config.filesystem (codes "C:\\work\\a.txt") root rule))
    ⊎ ((root : Text) × (rule : FilesystemRule) × IsGoverning externals engine.config.filesystem
          (codes "C:\\work\\a.txt")
          root
          rule
        × (filesystem_decision externals engine (codes "c:\\Work\\a.txt") true ≡ access true rule))
decision_by_longest_example =
    decision_by_longest externals engine true (codes "c:\\Work\\a.txt") (codes "C:\\work\\a.txt")
      file_normal

dotted_ambiguous : normalize_windows_path externals (codes "C:\\work\\..\\a.txt") ≡ none
unfolding normalize_windows_path split_windows_path is_ambiguous is_reserved_windows_name split
dotted_ambiguous = refl

write_auto_iff_example :
    ((evaluate externals engine write_request).kind ≡ PolicyDecisionKind.auto)
    ↔ IsAutoWritable externals engine write_request
write_auto_iff_example = write_auto_iff externals engine write_request refl

abbrev git_status : ActionRequest
git_status = with_action "r2" "terminal.exec"

git_status_safe : (evaluate externals engine git_status).reason_code ≡ "terminal_safe_list"
unfolding evaluate decision rule_for terminal_exec_decision terminal_argv parameter get
    command_is_inline_eval safe_command_matches executable_stem is_triggered scan_arguments
    executable_name_matches same_executable forbidden_safe_executable resolve_safe_executable_path
    rule_matches trim is_blank is_whitespace
git_status_safe = refl

IsSafe-list_exact_example : IsSafe externals engine git_status
IsSafe-list_exact_example = IsSafe-list_exact externals engine git_status refl git_status_safe
