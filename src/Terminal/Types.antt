-- ===== src/Terminal/Types.antt =====
-- The data of crates/vor-terminal/src/lib.rs.
use vor_commander.Base.{ℕ, String, Bool, Option, List, Result}
use vor_commander.Base.Text.{Text}
use vor_commander.Base.Map.{Map}

pub record TerminalLimits : Type 0 where
  pub max_timeout_ms : ℕ
  pub max_output_bytes : ℕ
  pub max_argc : ℕ
  pub max_arg_bytes : ℕ
  pub max_columns : ℕ
  pub max_rows : ℕ

pub record TerminalSpec : Type 0 where
  pub argv : List Text
  pub environment : Map String
  pub cwd : Text
  pub timeout_ms : ℕ
  pub max_output_bytes : ℕ
  pub columns : ℕ
  pub rows : ℕ

pub record TerminalRunResult : Type 0 where
  pub exit_code : ℕ
  pub output : List ℕ

pub record BoundedTerminal : Type 0 where
  pub allowed_roots : List Text
  pub limits : TerminalLimits

pub data TerminalError : Type 0 where
  invalid_limits no_allowed_roots empty_arguments cwd_outside_allowed_roots : TerminalError
  unsupported_cwd cancelled output_drain_limit_exceeded invalid_session_owner : TerminalError
  invalid_session_limit session_id_exhausted session_not_found : TerminalError
  session_owner_mismatch session_still_running session_registry_unavailable : TerminalError
  interior_nul invalid_dimensions hresult io : TerminalError
  argument_count_exceeded argument_bytes_exceeded : ℕ → ℕ → TerminalError
  invalid_timeout invalid_output_limit : ℕ → ℕ → TerminalError
  timeout output_limit_exceeded session_limit_exceeded : ℕ → TerminalError

-- the file system, and how paths are compared by their components
pub record Platform : Type 0 where
  pub canonicalize : Text → Option Text
  pub starts_with : Text → Text → Bool

pub record TerminalSessionOwner : Type 0 where
  pub organization_id : String
  pub actor_id : String
  pub device_id : String
  pub workspace_id : Option String

pub data TerminalSessionState : Type 0 where
  running completed cancelled timed_out failed : TerminalSessionState

pub record TerminalSessionSnapshot : Type 0 where
  pub session_id : String
  pub state : TerminalSessionState
  pub exit_code : Option ℕ
  pub output : List ℕ
  pub error_code : Option String

pub record TerminalSessionFailure : Type 0 where
  pub state : TerminalSessionState
  pub error_code : String

pub data ManagedTerminalState : Type 0 where
  running : ManagedTerminalState
  finished : Result TerminalSessionFailure TerminalRunResult → ManagedTerminalState

-- the cancellation flag, and the state behind its lock
pub record ManagedTerminalSession : Type 0 where
  pub owner : TerminalSessionOwner
  pub cancellation : Bool
  pub state : ManagedTerminalState

pub record TerminalSessionManager : Type 0 where
  pub terminal : BoundedTerminal
  pub sessions : Map ManagedTerminalSession
  pub max_sessions : ℕ
