-- ===== src/Process/Worker.antt =====
-- `ProcessWorker` of crates/vor-process/src/lib.rs.
use vor_commander.Base.{
  ℕ, String, ◌+◌, ◌*◌, ◌-◌, ◌^◌, Bool, true, false, not, Option, none, some, List, [], ◌∷◌, ◌&&◌,
  ◌||◌, leb, ◌==◌, str_eq, Result, ok, err, reject_if, ok_or, if◌then◌else◌, map,
}
use vor_commander.Base.{◌>>=◌ as ◌>>=ᵣ◌, ◌>>◌ as ◌>>ᵣ◌}
use vor_commander.Base.Text.{Text, codes, lower, text_eq, contains_text}
use vor_commander.Base.Map.{Map, get}
use vor_commander.Json.{Value, as_str, as_u64}
use vor_commander.Protocol.{PolicyDecisionKind}
use vor_commander.Core.{Authorization, ExecutionAuthorization}
use vor_commander.Process.Api.{
  ProcessInfo, ProcessIdentity, ProcessTerminateReceipt, wait_object0, ProcessAccess, WaitStatus,
  ProcessCriticality, TerminationUnconfirmedReason, ProcessError, Call, ProcessApi, M, ◌>>=◌, ◌>>◌,
  done, refuse, authorization_mismatch, approval_required, denied, wrong_action, invalid_pid,
  missing_identity, not_found, already_exited, critical_process, identity_mismatch,
  protected_process, termination_unconfirmed,
}

-- `str::parse::<u32>`: digits, behind a plus sign or not, and no more than fits
abbrev pub is_digit : ℕ → Bool
is_digit c = leb 48 c && leb c 57

unfoldable pub parse_digits : ℕ → Text → Option ℕ
parse_digits n [] = some n
parse_digits n (c ∷ s) =
    let next = n * 10 + (c - 48) in
    let rest = parse_digits next s in
    if is_digit c then if leb (2 ^ 32) next then none else rest else none

abbrev pub some_digits : Text → Option ℕ
some_digits [] = none
some_digits (c ∷ s) = parse_digits 0 (c ∷ s)

abbrev pub parse_u32 : Text → Option ℕ
parse_u32 [] = none
parse_u32 (c ∷ s) = if c == 43 then some_digits s else some_digits (c ∷ s)

unfoldable pub parse_pid : String → Result ProcessError ℕ
parse_pid value = ok_or (parse_u32 (codes value)) invalid_pid

abbrev pub option_bind : {A B : Type 0} → Option A → (A → Option B) → Option B
option_bind none f = none
option_bind (some a) f = f a

abbrev pub identity_text : String → Map Value → Result ProcessError Text
identity_text name params =
    ok_or (option_bind (option_bind (get name params) as_str) (λ s. some (codes s)))
      missing_identity

unfoldable pub expected_identity : ExecutionAuthorization → ℕ → Result ProcessError ProcessIdentity
expected_identity execution pid =
    let params = execution.authorization.request.envelope.parameters in
    identity_text "executable_name" params >>=ᵣ λ executable_name.
    identity_text "image_path" params >>=ᵣ λ image_path.
    ok_or (option_bind (get "created_at_windows_filetime_100ns" params) as_u64) missing_identity
    >>=ᵣ λ created. ok (record {
      pid = pid;
      executable_name = executable_name;
      image_path = image_path;
      created_at_windows_filetime_100ns = created;
    })

-- `ensure_auto_action`'s match on the kind of decision
abbrev pub require_auto : PolicyDecisionKind → Result ProcessError (Unit {0})
require_auto PolicyDecisionKind.auto = ok tt
require_auto PolicyDecisionKind.approval = err approval_required
require_auto PolicyDecisionKind.deny = err denied

abbrev pub digest_eq : List ℕ → List ℕ → Bool
digest_eq = text_eq

unfoldable pub ensure_auto_action : Authorization → String → Result ProcessError (Unit {0})
ensure_auto_action a expected =
    reject_if
      (not (digest_eq a.request.envelope_digest a.decision.envelope_digest)
        || not (str_eq a.request.envelope.request_id a.decision.request_id))
      authorization_mismatch
    >>ᵣ (require_auto a.decision.kind
        >>ᵣ reject_if (not (str_eq a.request.envelope.action expected)) wrong_action)

-- `replace('\\', "/")`
abbrev pub forward_slashes : Text → Text
forward_slashes = map (λ c. if c == 92 then 47 else c)

abbrev pub is_any : List String → Text → Bool
is_any [] s = false
is_any (n ∷ ns) s = text_eq (codes n) s || is_any ns s

unfoldable pub reject_protected_identity : ProcessIdentity → Result ProcessError (Unit {0})
reject_protected_identity i =
    let name = lower i.executable_name in
    let path = forward_slashes (lower i.image_path) in
    let vor_names =
      "vor-agent.exe" ∷ "vor-gateway.exe" ∷ "vor-control-plane.exe" ∷ "vor-maintainer.exe"
      ∷ "vor-approver.exe" ∷ [] in
    if is_any vor_names name || contains_text (codes "/vor-commander/") path
    then err (protected_process "vor_control_component")
    else if text_eq name (codes "codex.exe") || contains_text (codes "/openai/codex/") path
    then err (protected_process "control_channel_component")
    else ok tt

unfoldable pub same_identity : ProcessIdentity → ProcessIdentity → Bool
same_identity a b =
    a.pid == b.pid
    && text_eq a.executable_name b.executable_name
    && text_eq a.image_path b.image_path
    && a.created_at_windows_filetime_100ns == b.created_at_windows_filetime_100ns

abbrev pub terminate_wait_ms : ℕ
terminate_wait_ms = 5000

abbrev pub termination_exit_code : ℕ
termination_exit_code = 0xC000013A

abbrev pub is_critical : ProcessCriticality → Bool
is_critical ProcessCriticality.critical = true
is_critical ProcessCriticality.not_critical = false

abbrev pub find_process : ℕ → List ProcessInfo → Option ProcessInfo
find_process pid [] = none
find_process pid (p ∷ ps) = let rest = find_process pid ps in if p.pid == pid then some p else rest

-- what `ensure_still_running` makes of the answer
abbrev pub running_status : ℕ → WaitStatus → Result ProcessError (Unit {0})
running_status pid WaitStatus.object0 = err (already_exited pid)
running_status pid WaitStatus.timeout = ok tt
running_status pid (WaitStatus.failed code) = err (ProcessError.wait_failed pid code)
running_status pid (WaitStatus.unexpected status) =
    err (ProcessError.unexpected_wait_status pid status)

-- what `terminate_with_api` makes of the last answer
abbrev pub receipt_for : ProcessIdentity → WaitStatus → Result ProcessError ProcessTerminateReceipt
receipt_for actual WaitStatus.object0 = ok (record {
  pid = actual.pid;
  executable_name = actual.executable_name;
  image_path = actual.image_path;
  created_at_windows_filetime_100ns = actual.created_at_windows_filetime_100ns;
  terminated = true;
  wait_result = wait_object0;
})
receipt_for actual WaitStatus.timeout = err (
    termination_unconfirmed actual.pid
      (TerminationUnconfirmedReason.wait_timeout terminate_wait_ms))
receipt_for actual (WaitStatus.failed code) =
    err (termination_unconfirmed actual.pid (TerminationUnconfirmedReason.wait_failed code))
receipt_for actual (WaitStatus.unexpected status) = err (
    termination_unconfirmed actual.pid (TerminationUnconfirmedReason.unexpected_wait_status status))

module _ (api : ProcessApi) where
  abbrev pub call_list : M (List ProcessInfo)
  call_list h = (Call.list_processes ∷ h, api.on_list_processes h)

  abbrev pub call_open : ℕ → ProcessAccess → M ℕ
  call_open pid access h = (Call.open_process pid access ∷ h, api.on_open h pid access)

  abbrev pub call_wait : ℕ → ℕ → M WaitStatus
  call_wait handle ms h = (Call.wait handle ms ∷ h, api.on_wait h handle ms)

  abbrev pub call_identity : ℕ → ℕ → M ProcessIdentity
  call_identity pid handle h = (Call.identity pid handle ∷ h, api.on_identity h pid handle)

  abbrev pub call_criticality : ℕ → M ProcessCriticality
  call_criticality handle h = (Call.criticality handle ∷ h, api.on_criticality h handle)

  abbrev pub call_terminate : ℕ → ℕ → M (Unit {0})
  call_terminate handle code h = (Call.terminate handle code ∷ h, api.on_terminate h handle code)

  abbrev pub ensure_still_running : ℕ → ℕ → M (Unit {0})
  ensure_still_running pid handle = do status ← call_wait handle 0; done (running_status pid status)

  unfoldable pub list : Authorization → M (List ProcessInfo)
  list a = do done (ensure_auto_action a "process.list"); call_list

  unfoldable pub inspect : Authorization → M ProcessInfo
  inspect a = do
    done (ensure_auto_action a "process.inspect")
    pid ← done (parse_pid a.request.envelope.target)
    processes ← call_list
    done (ok_or (find_process pid processes) (not_found pid))

  unfoldable pub identity_with_api : ℕ → M ProcessIdentity
  identity_with_api pid = do
    handle ← call_open pid ProcessAccess.query_identity
    ensure_still_running pid handle
    call_identity pid handle

  -- `terminate_with_api` from its call of `terminate` on
  abbrev pub kill_and_wait : ℕ → ProcessIdentity → M ProcessTerminateReceipt
  kill_and_wait handle actual = do
    call_terminate handle termination_exit_code
    status ← call_wait handle terminate_wait_ms
    done (receipt_for actual status)

  -- from the match on the answer of `criticality` on
  abbrev pub end_uncritical : ℕ → ProcessIdentity → ProcessCriticality → M ProcessTerminateReceipt
  end_uncritical handle actual c = do
    refuse (is_critical c) (critical_process actual.pid)
    kill_and_wait handle actual

  abbrev pub end_unprotected : ℕ → ProcessIdentity → M ProcessTerminateReceipt
  end_unprotected handle actual = do
    done (reject_protected_identity actual)
    c ← call_criticality handle
    end_uncritical handle actual c

  abbrev pub end_identified : ProcessIdentity → ℕ → ProcessIdentity → M ProcessTerminateReceipt
  end_identified expected handle actual = do
    refuse (not (same_identity actual expected)) (identity_mismatch expected actual)
    end_unprotected handle actual

  abbrev pub end_running : ProcessIdentity → ℕ → M ProcessTerminateReceipt
  end_running expected handle = do
    actual ← call_identity expected.pid handle
    end_identified expected handle actual

  abbrev pub end_opened : ProcessIdentity → ℕ → M ProcessTerminateReceipt
  end_opened expected handle = do
    ensure_still_running expected.pid handle
    end_running expected handle

  unfoldable pub terminate_with_api : ℕ → ProcessIdentity → M ProcessTerminateReceipt
  terminate_with_api own_pid expected = do
    refuse (expected.pid == own_pid) (protected_process "current_process")
    handle ← call_open expected.pid ProcessAccess.terminate
    end_opened expected handle

  unfoldable pub terminate_approved : ℕ → ExecutionAuthorization → M ProcessTerminateReceipt
  terminate_approved own_pid execution = do
    refuse (not (str_eq execution.authorization.request.envelope.action "process.terminate"))
        wrong_action
    pid ← done (parse_pid execution.authorization.request.envelope.target)
    expected ← done (expected_identity execution pid)
    terminate_with_api own_pid expected
