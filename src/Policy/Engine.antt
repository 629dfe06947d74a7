-- ===== src/Policy/Engine.antt =====
-- `PolicyEngine` of crates/vor-policy/src/lib.rs: the decision on a request.
pub mod Filesystem
pub mod Writes
pub mod Terminals
pub mod Kinds
use Prim.Native.Nat.{ℕ}
use vor_commander.Base.{
  String, str_eq, Bool, true, false, not, Option, none, some, List, [], ◌∷◌, ◌==◌, ltb, ◌&&◌, ◌||◌,
  if◌then◌else◌, any, Result, ok, err, reject_if, ok_or, ◌>>=◌, ◌>>◌, length,
}
use vor_commander.Base.Text.{
  Text, codes, text_eq, has_prefix, is_empty, byte_len, is_blank, eq_ignore_case, is_some,
}
use vor_commander.Base.Map.{get}
use vor_commander.Json
use vor_commander.Json.{Value, Values, as_bool, as_u64, as_str, as_array}
use vor_commander.Protocol.{ActionRequest, PolicyDecisionKind, PolicyDecision}
use vor_commander.WinPath.{windows_path_within, sensitive_windows_path}
use vor_commander.Policy.Config.{
  Externals, PolicyConfig, PolicyEngine, FilesystemRule, RuleDecision, elevated_approval,
  ApprovalMode, strict, policy,
}
use vor_commander.Policy.Normalize.{normalize_windows_path}
use vor_commander.Policy.Terminal.{command_is_inline_eval, safe_command_matches}

pub data PolicyError : Type 0 where
  invalid_config yaml : PolicyError

-- `trim_start_matches('\u{feff}')`
abbrev pub trim_marks : Text → Text
trim_marks [] = []
trim_marks (c ∷ s) = let rest = trim_marks s in if c == 65279 then rest else c ∷ rest

-- `==` on the two enums
abbrev pub is_auto : RuleDecision → Bool
is_auto RuleDecision.auto = true
is_auto _ = false

abbrev pub is_strict : ApprovalMode → Bool
is_strict strict = true
is_strict policy = false

-- the argument texts, or nothing if one of them is no string
abbrev pub strings : Values → Option (List Text)
strings Json.nil = some []
strings (Json.cons v vs) = elim (as_str v) [
  | none ↦ none
  | some s ↦ elim (strings vs) [ none ↦ none | some ss ↦ some (codes s ∷ ss) ]
]

abbrev non_empty : Values → Option (List Text)
non_empty Json.nil = none
non_empty (Json.cons v vs) = strings (Json.cons v vs)

abbrev pub option_bind {ℓ κ} : {A : Type ℓ} {B : Type κ} → Option A → (A → Option B) → Option B
option_bind none f = none
option_bind (some a) f = f a

unfoldable pub parameter {ℓ} : {A : Type ℓ} → ActionRequest → String → (Value → Option A) → Option A
parameter request name read = option_bind (get name request.envelope.parameters) read

unfoldable pub terminal_argv : ActionRequest → Option (List Text)
terminal_argv request = option_bind (parameter request "argv" as_array) non_empty

-- `is_some_and` of the precondition on `expected_target_sha256`
unfoldable pub valid_precondition : Externals → Option String → Bool
valid_precondition x none = false
valid_precondition x (some value) =
    eq_ignore_case (codes value) (codes "absent")
    || (byte_len (codes value) == 64
        && elim (x.hex_decode (codes value)) [ none ↦ false | some v ↦ length v == 32 ])

-- A rule's root in normal form, with the rule.
abbrev pub Candidate : Type 0
Candidate = Text × FilesystemRule

abbrev pub add_candidate : Text → Option Text → FilesystemRule → List Candidate → List Candidate
add_candidate target none rule rest = rest
add_candidate target (some root) rule rest =
    if windows_path_within target root then (root, rule) ∷ rest else rest

unfoldable pub candidates : Externals → Text → List FilesystemRule → List Candidate
candidates x target [] = []
candidates x target (rule ∷ rules) =
    add_candidate target (normalize_windows_path x (codes rule.path)) rule
      (candidates x target rules)

-- `max_by_key(|(root, _)| root.len())`: the last of the longest
abbrev pub longer : Candidate → Option Candidate → Candidate
longer a none = a
longer a (some b) = if ltb (byte_len b.0) (byte_len a.0) then a else b

unfoldable pub longest : List Candidate → Option Candidate
longest [] = none
longest (a ∷ rest) = some (longer a (longest rest))

abbrev pub pick_rule : Bool → Option Candidate → RuleDecision
pick_rule write none = RuleDecision.deny
pick_rule write (some (root, rule)) = if write then rule.write else rule.read

abbrev pub decide_target : Externals → List FilesystemRule → Bool → Option Text → RuleDecision
decide_target x rules write none = RuleDecision.deny
decide_target x rules write (some target) = pick_rule write (longest (candidates x target rules))

module _ (x : Externals) where
  unfoldable pub from_yaml_str : Text → Result PolicyError PolicyEngine
  from_yaml_str text = do
    let input = trim_marks text
    config ← ok_or (x.parse_yaml input) yaml
    reject_if (not (config.version == 1) || is_blank (codes config.policy_id)) invalid_config
    ok (record { config = config; policy_hash = x.sha256_hex input })

  unfoldable pub filesystem_decision : PolicyEngine → Text → Bool → RuleDecision
  filesystem_decision engine target write =
      decide_target x engine.config.filesystem write (normalize_windows_path x target)

  abbrev pub is_unwritable : Option Text → Bool
  is_unwritable none = true
  is_unwritable (some path) = sensitive_windows_path path

  abbrev pub allow_size : PolicyEngine → ActionRequest → Option ℕ → RuleDecision × String
  allow_size engine request none = (RuleDecision.approval, "auto_write_size_required")
  allow_size engine request (some size) =
      if ltb engine.config.auto_write.max_bytes size
      then (RuleDecision.approval, "auto_write_size_exceeded")
      else if not (valid_precondition x (parameter request "expected_target_sha256" as_str))
      then (RuleDecision.approval, "auto_write_precondition_missing")
      else (RuleDecision.auto, "auto_write_safe")

  abbrev pub is_true : Option Bool → Bool
  is_true none = false
  is_true (some b) = b

  unfoldable pub filesystem_write_decision : PolicyEngine → ActionRequest → RuleDecision × String
  filesystem_write_decision engine request =
      let base = filesystem_decision engine (codes request.envelope.target) true in
      if not (is_auto base)
      then (base, "filesystem_rule")
      else if is_strict engine.config.mode
      then (RuleDecision.approval, "strict_mode")
      else if is_true (parameter request "approval_path" as_bool)
      then (RuleDecision.approval, "explicit_signed_path")
      else if is_unwritable (normalize_windows_path x (codes request.envelope.target))
      then (RuleDecision.approval, "auto_write_sensitive_path")
      else allow_size engine request (parameter request "content_bytes" as_u64)

  abbrev pub decide_argv : PolicyEngine → Option (List Text) → RuleDecision × String
  decide_argv engine none = (RuleDecision.deny, "terminal_argv_required")
  decide_argv engine (some argv) =
      if command_is_inline_eval argv
      then (engine.config.terminal.inline_eval, "terminal_inline_eval")
      else if not (is_strict engine.config.mode)
          && safe_command_matches x argv engine.config.terminal.safe_commands
              engine.config.terminal.safe_executable_paths
      then (RuleDecision.auto, "terminal_safe_list")
      else (engine.config.terminal.default_decision, "terminal_default")

  unfoldable pub terminal_exec_decision : PolicyEngine → ActionRequest → RuleDecision × String
  terminal_exec_decision engine request = decide_argv engine (terminal_argv request)

  abbrev pub one_of : List String → String → Bool
  one_of names action = any (str_eq action) names

  -- the actions that are neither known by name nor `desktop.…`
  unfoldable pub other_rule : PolicyEngine → String → RuleDecision × String
  other_rule engine action =
      if has_prefix (codes "desktop.") (codes action)
      then (if engine.config.desktop.enabled
          then (RuleDecision.approval, "desktop_approval")
          else (RuleDecision.deny, "desktop_disabled"))
      else (RuleDecision.deny, "unknown_action")

  -- the second half of the `match`
  unfoldable pub system_rule : PolicyEngine → ActionRequest → String → RuleDecision × String
  system_rule engine request action =
      if str_eq action "process.list"
      then (engine.config.process.list, "process_list")
      else if str_eq action "process.inspect"
      then (engine.config.process.inspect, "process_inspect")
      else if str_eq action "process.terminate"
      then (engine.config.process.terminate, "process_terminate")
      else if one_of ("git.status" ∷ "git.diff" ∷ []) action
      then (filesystem_decision engine (codes request.envelope.target) false, "git_read")
      else if str_eq action "browser.session.use"
      then (engine.config.browser.authenticated_session_use, "browser_session")
      else if str_eq action "browser.secret.extract"
      then (engine.config.browser.secret_extraction, "browser_secret")
      else if str_eq action "browser.publish"
      then (engine.config.browser.publish, "browser_publish")
      else if str_eq action "browser.purchase"
      then (engine.config.browser.purchase, "browser_purchase")
      else if str_eq action "network.public_listener"
      then (engine.config.network.public_listener_fallback, "public_listener")
      else other_rule engine action

  abbrev pub filesystem_reads : List String
  filesystem_reads =
      "filesystem.read" ∷ "filesystem.list" ∷ "filesystem.search_files"
      ∷ "filesystem.search_content" ∷ "filesystem.info" ∷ []

  -- the `match` on the action
  unfoldable pub rule_for : PolicyEngine → ActionRequest → String → RuleDecision × String
  rule_for engine request action =
      if one_of filesystem_reads action
      then (filesystem_decision engine (codes request.envelope.target) false, "filesystem_rule")
      else if str_eq action "filesystem.write"
      then filesystem_write_decision engine request
      else if str_eq action "terminal.exec"
      then terminal_exec_decision engine request
      else if str_eq action "terminal.poll"
      then (RuleDecision.auto, "terminal_poll")
      else if str_eq action "terminal.cancel"
      then (RuleDecision.auto, "terminal_cancel")
      else if str_eq action "terminal.project_test"
      then (engine.config.terminal.project_tests, "terminal_project_test")
      else if str_eq action "terminal.destructive"
      then (engine.config.terminal.destructive, "terminal_destructive")
      else if str_eq action "terminal.elevated"
      then (engine.config.terminal.elevated, "terminal_elevated")
      else system_rule engine request action

  abbrev pub decision_kind : RuleDecision → PolicyDecisionKind × Option String
  decision_kind RuleDecision.auto = (PolicyDecisionKind.auto, none)
  decision_kind RuleDecision.approval = (PolicyDecisionKind.approval, none)
  decision_kind RuleDecision.deny = (PolicyDecisionKind.deny, none)
  decision_kind elevated_approval = (PolicyDecisionKind.approval, some "elevated")

  unfoldable pub decision : PolicyEngine → ActionRequest → RuleDecision × String → PolicyDecision
  decision engine request (rule, reason) = record {
    request_id = request.envelope.request_id;
    kind = (decision_kind rule).0;
    policy_id = engine.config.policy_id;
    reason_code = reason;
    required_capability = (decision_kind rule).1;
    envelope_digest = request.envelope_digest;
  }

  unfoldable pub evaluate : PolicyEngine → ActionRequest → PolicyDecision
  unfolding decision
  evaluate engine request =
      decision engine request (rule_for engine request request.envelope.action)
