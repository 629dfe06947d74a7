-- ===== src/Policy/Config.antt =====
-- The configuration types of crates/vor-policy/src/lib.rs, and what the engine takes from the
-- operating system and from third-party crates.
use vor_commander.Base.{ℕ, String, Bool, Option, List, [], ◌∷◌, ◌*◌}
use vor_commander.Base.Text.{Text}

pub data ApprovalMode : Type 0 where
  strict policy : ApprovalMode

pub record AutoWritePolicy : Type 0 where
  pub max_bytes : ℕ
  pub max_files_per_minute : ℕ
  pub max_bytes_per_minute : ℕ

-- the serde defaults of the three fields, which are `Default for AutoWritePolicy` too
abbrev pub default_auto_write : AutoWritePolicy
default_auto_write = record {
  max_bytes = 1024 * 1024;
  max_files_per_minute = 60;
  max_bytes_per_minute = 8 * 1024 * 1024;
}

pub data RuleDecision : Type 0 where
  auto approval deny elevated_approval : RuleDecision

pub record FilesystemRule : Type 0 where
  pub path : String
  pub read : RuleDecision
  pub write : RuleDecision

pub record SafeCommandRule : Type 0 where
  pub executable : String
  pub arguments : List String

pub record TerminalPolicy : Type 0 where
  pub default_decision : RuleDecision
  pub inline_eval : RuleDecision
  pub project_tests : RuleDecision
  pub destructive : RuleDecision
  pub elevated : RuleDecision
  pub safe_executable_paths : List Text
  pub safe_commands : List SafeCommandRule

abbrev safe_command : String → List String → SafeCommandRule
safe_command executable arguments = record { executable = executable; arguments = arguments }

abbrev pub default_safe_commands : List SafeCommandRule
default_safe_commands =
    safe_command "git" ("status" ∷ [])
    ∷ safe_command "git" ("diff" ∷ [])
    ∷ safe_command "git" ("log" ∷ [])
    ∷ safe_command "git" ("show" ∷ [])
    ∷ safe_command "git" ("branch" ∷ [])
    ∷ safe_command "cargo" ("fmt" ∷ "--check" ∷ [])
    ∷ safe_command "cargo" ("metadata" ∷ [])
    ∷ safe_command "node" ("--version" ∷ [])
    ∷ []

abbrev pub default_inline_eval_decision : RuleDecision
default_inline_eval_decision = elevated_approval

pub record ProcessPolicy : Type 0 where
  pub list : RuleDecision
  pub inspect : RuleDecision
  pub terminate : RuleDecision

pub record BrowserPolicy : Type 0 where
  pub authenticated_session_use : RuleDecision
  pub secret_extraction : RuleDecision
  pub publish : RuleDecision
  pub purchase : RuleDecision

pub record DesktopPolicy : Type 0 where
  pub enabled : Bool

pub record NetworkPolicy : Type 0 where
  pub public_listener_fallback : RuleDecision

pub record AuditPolicy : Type 0 where
  pub required : Bool
  pub fail_if_unwritable : Bool

pub record PolicyConfig : Type 0 where
  pub version : ℕ
  pub policy_id : String
  pub mode : ApprovalMode
  pub auto_write : AutoWritePolicy
  pub filesystem : List FilesystemRule
  pub terminal : TerminalPolicy
  pub process : ProcessPolicy
  pub browser : BrowserPolicy
  pub desktop : DesktopPolicy
  pub network : NetworkPolicy
  pub audit : AuditPolicy

pub record PolicyEngine : Type 0 where
  pub config : PolicyConfig
  pub policy_hash : String

-- What is not under the repository's control: the platform (`cfg!(windows)`, `fs::canonicalize`,
-- `GetLongPathNameW`, how `std::path` takes a path apart there) and the crates `hex`, `yaml_serde`
-- and `sha2`.
pub record Externals : Type 0 where
  pub windows : Bool
  pub canonicalize : Text → Option Text
  pub is_absolute : Text → Bool
  pub file_stem : Text → Option Text
  pub extension : Text → Option Text
  pub long_path_name : Text → Option Text
  pub hex_decode : Text → Option (List ℕ)
  pub parse_yaml : Text → Option PolicyConfig
  pub sha256_hex : Text → String
