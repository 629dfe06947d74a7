-- ===== src/Process/Api.antt =====
-- `ProcessApi` of crates/vor-process/src/lib.rs, with the calls made so far, newest first.
use vor_commander.Base.{ℕ, String, Bool, true, false, List, [], ◌∷◌, Result, ok, err}
use vor_commander.Base.Text.{Text}

pub record ProcessInfo : Type 0 where
  pub pid : ℕ
  pub parent_pid : ℕ
  pub executable_name : String

pub record ProcessIdentity : Type 0 where
  pub pid : ℕ
  pub executable_name : Text
  pub image_path : Text
  pub created_at_windows_filetime_100ns : ℕ

pub data TerminateWaitResult : Type 0 where
  wait_object0 : TerminateWaitResult

pub record ProcessTerminateReceipt : Type 0 where
  pub pid : ℕ
  pub executable_name : Text
  pub image_path : Text
  pub created_at_windows_filetime_100ns : ℕ
  pub terminated : Bool
  pub wait_result : TerminateWaitResult

pub data ProcessAccess : Type 0 where
  query_identity terminate : ProcessAccess

pub data WaitStatus : Type 0 where
  object0 timeout : WaitStatus
  failed unexpected : ℕ → WaitStatus

pub data ProcessCriticality : Type 0 where
  critical not_critical : ProcessCriticality

pub data TerminationUnconfirmedReason : Type 0 where
  wait_timeout wait_failed unexpected_wait_status : ℕ → TerminationUnconfirmedReason

pub data ProcessError : Type 0 where
  authorization_mismatch approval_required denied wrong_action invalid_pid : ProcessError
  missing_identity io : ProcessError
  not_found already_exited critical_process : ℕ → ProcessError
  wait_failed unexpected_wait_status : ℕ → ℕ → ProcessError
  identity_mismatch : ProcessIdentity → ProcessIdentity → ProcessError
  protected_process : String → ProcessError
  termination_unconfirmed : ℕ → TerminationUnconfirmedReason → ProcessError

-- a call of the interface; a handle is a number
pub data Call : Type 0 where
  list_processes : Call
  open_process : ℕ → ProcessAccess → Call
  wait : ℕ → ℕ → Call
  identity : ℕ → ℕ → Call
  criticality : ℕ → Call
  terminate : ℕ → ℕ → Call

abbrev pub History : Type 0
History = List Call

-- the answers, given the calls before
pub record ProcessApi : Type 0 where
  pub on_list_processes : History → Result ProcessError (List ProcessInfo)
  pub on_open : History → ℕ → ProcessAccess → Result ProcessError ℕ
  pub on_wait : History → ℕ → ℕ → Result ProcessError WaitStatus
  pub on_identity : History → ℕ → ℕ → Result ProcessError ProcessIdentity
  pub on_criticality : History → ℕ → Result ProcessError ProcessCriticality
  pub on_terminate : History → ℕ → ℕ → Result ProcessError (Unit {0})

abbrev pub M : Type 0 → Type 0
M A = History → History × Result ProcessError A

abbrev pub continue_with :
    {A B : Type 0} → (A → M B) → History × Result ProcessError A → History × Result ProcessError B
continue_with f (h, ok a) = f a h
continue_with f (h, err e) = (h, err e)

infixl 5 ◌>>=◌ ◌>>◌
abbrev pub ◌>>=◌ : {A B : Type 0} → M A → (A → M B) → M B
◌>>=◌ m f h = continue_with f (m h)

abbrev pub ◌>>◌ : {B : Type 0} → M (Unit {0}) → M B → M B
m >> k = m >>= λ _. k

abbrev pub done : {A : Type 0} → Result ProcessError A → M A
done r h = (h, r)

abbrev pub refuse : Bool → ProcessError → M (Unit {0})
refuse true e h = (h, err e)
refuse false e h = (h, ok tt)

-- the handles and exit codes with which `terminate` was called, the last one first
abbrev pub kills : History → List (ℕ × ℕ)
kills [] = []
kills (list_processes ∷ h) = kills h
kills (open_process pid access ∷ h) = kills h
kills (wait handle ms ∷ h) = kills h
kills (identity pid handle ∷ h) = kills h
kills (criticality handle ∷ h) = kills h
kills (terminate handle code ∷ h) = (handle, code) ∷ kills h
