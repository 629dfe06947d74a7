-- ===== src/Dispatch/State.antt =====
-- `ReadOnlyDispatcher` of crates/vor-dispatch/src/lib.rs, and computations that change it and may
-- fail. What the workers have been told to do is kept, newest first.
use vor_commander.Base.{ℕ, String, Bool, true, false, List, Result, ok, err, str_eq, ◌||◌}
use vor_commander.Protocol.{PolicyDecisionKind}
use vor_commander.Json.{Value}
use vor_commander.Approval.{ApprovalVerifier, ApprovalError}
use vor_commander.Wire.{Timestamp, ℤ}
use vor_commander.Core.{Authorization, ExecutionAuthorization, Broker, CoreError}

pub data DispatchError : Type 0 where
  wrong_device remote_action_not_allowed denied approval_required : DispatchError
  remote_approval_policy_required invalid_filesystem_parameters clock json : DispatchError
  invalid_approved_action worker_error : DispatchError
  output_too_large : ℕ → DispatchError
  post_effect_uncertain core : CoreError → DispatchError
  approval : ApprovalError → DispatchError

-- what a worker was told to do
pub data Effect : Type 0 where
  approved : ExecutionAuthorization → Effect
  automatic : Authorization → Effect

pub record Dispatcher : Type 0 where
  pub device_id : String
  pub broker : Broker
  pub approval_verifier : ApprovalVerifier
  pub max_output_bytes : ℕ
  pub effects : List Effect

-- a result's bytes and their content type
abbrev pub Output : Type 0
Output = List ℕ × String

pub record ActionResult : Type 0 where
  pub request_id : String
  pub exit_code : ℤ
  pub status : String
  pub stdout_digest : List ℕ
  pub stderr_digest : List ℕ
  pub completed_at : Timestamp
  pub output : List ℕ
  pub content_type : String
  pub truncated : Bool

-- `PreparedEdit` of crates/vor-fs, with its texts encoded
pub record PreparedEdit : Type 0 where
  pub content_base64 : String
  pub content_sha256 : String
  pub original_sha256 : String
  pub content_bytes : ℕ
  pub diff_summary : String
  pub diff_truncated : Bool

-- The workers, by what was done before: approved actions, actions that need no approval, and edits
-- that are only prepared.
pub record Workers : Type 0 where
  pub write_approved : List Effect → ExecutionAuthorization → Result DispatchError Output
  pub exec_approved : List Effect → ExecutionAuthorization → Result DispatchError Output
  pub terminate_approved : List Effect → ExecutionAuthorization → Result DispatchError Output
  pub browse_approved : List Effect → ExecutionAuthorization → Result DispatchError Output
  pub execute_authorized : List Effect → Authorization → Result DispatchError Output
  pub prepare_edit : Authorization → Value → Result DispatchError PreparedEdit

abbrev pub M {ℓ} : Type ℓ → Type ℓ
M A = Dispatcher → Dispatcher × Result DispatchError A

abbrev pub continue_with {ℓ κ} :
    {A : Type ℓ} {B : Type κ}
    → (A → M B)
    → Dispatcher × Result DispatchError A
    → Dispatcher × Result DispatchError B
continue_with f (d, ok a) = f a d
continue_with f (d, err e) = (d, err e)

infixl 5 ◌>>=◌ ◌>>◌
abbrev pub ◌>>=◌ {ℓ κ} : {A : Type ℓ} {B : Type κ} → M A → (A → M B) → M B
◌>>=◌ m f d = continue_with f (m d)

abbrev pub ◌>>◌ {ℓ} : {B : Type ℓ} → M (Unit {0}) → M B → M B
m >> k = m >>= λ _. k

abbrev pub return {ℓ} : {A : Type ℓ} → Result DispatchError A → M A
return r d = (d, r)

abbrev pub fail {ℓ} : {A : Type ℓ} → DispatchError → M A
fail e d = (d, err e)

abbrev pub refuse : Bool → DispatchError → M (Unit {0})
refuse true e d = (d, err e)
refuse false e d = (d, ok tt)

-- the dispatcher as it stands
abbrev pub current : M Dispatcher
current d = (d, ok d)

abbrev pub answered {ℓ} :
    {A : Type ℓ} → Dispatcher → Broker × Result CoreError A → Dispatcher × Result DispatchError A
answered d (b, ok a) = (record d { broker = b }, ok a)
answered d (b, err e) = (record d { broker = b }, err (core e))

-- `self.broker.….map_err(…)?`
abbrev pub ask {ℓ} : {A : Type ℓ} → (Broker → Broker × Result CoreError A) → M A
ask call d = answered d (call d.broker)

-- a call of the broker whose error is looked at
abbrev pub try_ask {ℓ} :
    {A : Type ℓ} → (Broker → Broker × Result CoreError A) → M (Result CoreError A)
try_ask call d = (record d { broker = (call d.broker).0 }, ok (call d.broker).1)

abbrev pub is_denied : Authorization → Bool
is_denied a = elim a.decision.kind [ PolicyDecisionKind.deny ↦ true | _ ↦ false ]

abbrev pub requires_approval : Authorization → Bool
requires_approval a = elim a.decision.kind [ PolicyDecisionKind.approval ↦ true | _ ↦ false ]

unfoldable pub remote_action_allowed : String → Bool
remote_action_allowed action =
    str_eq action "filesystem.read"
    || str_eq action "filesystem.list"
    || str_eq action "filesystem.search_files"
    || str_eq action "filesystem.search_content"
    || str_eq action "filesystem.info"
    || str_eq action "git.status"
    || str_eq action "git.diff"
    || str_eq action "process.list"
    || str_eq action "process.inspect"
    || str_eq action "terminal.poll"
    || str_eq action "terminal.cancel"

unfoldable pub remote_approved_action_allowed : String → Bool
remote_approved_action_allowed action =
    str_eq action "filesystem.write"
    || str_eq action "terminal.exec"
    || str_eq action "process.terminate"
    || str_eq action "browser.session.use"
