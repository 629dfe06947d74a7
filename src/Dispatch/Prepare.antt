-- ===== src/Dispatch/Prepare.antt =====
-- `prepare_approved_at` of crates/vor-dispatch/src/lib.rs, cut where its proofs need a name, and
-- `dispatch_proto_at`.
use vor_commander.Base.{
  ℕ, String, ◌+◌, ◌^◌, Bool, true, false, Option, none, some, [], ◌&&◌, ◌||◌, leb, str_eq, Result,
  ok, err, map_err, if◌then◌else◌,
}
use vor_commander.Base.Map.{Map, get, insert}
use vor_commander.Json.{Value, str, unsigned, bool, as_bool}
use vor_commander.Protocol.{ActionRequest, ActionEnvelope, seal}
use vor_commander.Approval.{ApprovalChallenge, issue}
use vor_commander.Core.{Outside, Authorization, is_auto}
use vor_commander.Dispatch.State.{
  DispatchError, Output, ActionResult, PreparedEdit, Workers, M, ◌>>=◌, ◌>>◌, return, refuse,
  is_denied, requires_approval, remote_approved_action_allowed, denied,
  invalid_filesystem_parameters, clock, approval,
}
use vor_commander.Dispatch.Dispatcher.{
  run_authorized, result_of, success_result, audit, refuse_unneeded, check_device, authorize,
  check_approved_action, Faults, Challenges,
}
use vor_commander.Dispatch.Direct.{dispatch_at}

module _ (o : Outside) (w : Workers) where
  abbrev pub flag : String → Map Value → Bool
  flag name parameters = elim (get name parameters) [
    | none ↦ false
    | some v ↦ elim (as_bool v) [ none ↦ false | some b ↦ b ]
  ]

  -- a flag of the request that the transformed request keeps
  abbrev pub keep_flag : String → Map Value → Map Value → Map Value
  keep_flag name original parameters =
      if flag name original then insert name (bool true) parameters else parameters

  abbrev pub keep_value : String → Map Value → Map Value → Map Value
  keep_value name original parameters = elim (get name original) [
    | none ↦ parameters
    | some v ↦ insert name v parameters
  ]

  -- the request that stands for a prepared edit
  unfoldable pub transformed : ActionEnvelope → PreparedEdit → ActionEnvelope
  transformed original p = record original {
    parameters = keep_value "workspace_id" original.parameters (
        keep_flag "approval_path" original.parameters (
          keep_flag "policy_attempt" original.parameters (
            insert "content_bytes" (unsigned p.content_bytes) (
              insert "expected_target_sha256" (str p.original_sha256) (
                insert "content_sha256" (str p.content_sha256)
                  (insert "content_base64" (str p.content_base64) []))))));
  }

  abbrev pub as_parameters {ℓ κ} : {E : Type ℓ} {A : Type κ} → Result E A → Result DispatchError A
  as_parameters r = map_err (λ e. invalid_filesystem_parameters) r

  abbrev pub authorize_sealed :
      Faults → ℕ → PreparedEdit → ActionRequest → M (Authorization × Option PreparedEdit)
  authorize_sealed faults now p request =
      authorize o w faults.reauthorize request now >>= λ again. return (ok (again, some p))

  abbrev pub authorize_edit :
      Faults → Authorization → ℕ → PreparedEdit → M (Authorization × Option PreparedEdit)
  authorize_edit faults a now p =
      return (as_parameters (seal o.hashing (transformed a.request.envelope p)))
      >>= authorize_sealed faults now p

  -- an edit recipe is prepared, and the request that it becomes is authorized again
  abbrev pub prepare_recipe :
      Faults → Authorization → ℕ → Option Value → M (Authorization × Option PreparedEdit)
  prepare_recipe faults a now none = return (ok (a, none))
  prepare_recipe faults a now (some recipe) =
      return (w.prepare_edit a recipe) >>= authorize_edit faults a now

  abbrev pub is_policy_write : Authorization → Bool
  is_policy_write a =
      str_eq a.request.envelope.action "filesystem.write"
      && flag "policy_attempt" a.request.envelope.parameters

  abbrev pub is_safe_terminal : Authorization → Bool
  is_safe_terminal a =
      str_eq a.request.envelope.action "terminal.exec"
      && str_eq a.decision.reason_code "terminal_safe_list"

  abbrev pub min_of : ℕ → ℕ → ℕ
  min_of a b = if leb a b then a else b

  abbrev pub challenge_ttl_ms : ℕ
  challenge_ttl_ms = 120000

  abbrev pub challenge_expiry : ℕ → ActionRequest → Result DispatchError ℕ
  challenge_expiry now request =
      if leb (2 ^ 64) (now + challenge_ttl_ms)
      then err clock
      else ok (min_of (now + challenge_ttl_ms) request.envelope.expires_at_unix_ms)

  abbrev pub complete_automatic : Faults → Authorization → ℕ → Output → M ActionResult
  complete_automatic faults a now output = do
    audit o w faults.outcome a "executed" now
    success_result o w a output now

  abbrev pub prepare_completed :
      Faults → Authorization → ℕ → Result DispatchError Output → M ActionResult
  prepare_completed faults a now result = return result >>= complete_automatic faults a now

  abbrev pub issue_challenge :
      Challenges → ℕ → Authorization → ℕ → Result DispatchError ApprovalChallenge
  issue_challenge c now a expires =
      map_err approval (issue o.hashing a.request a.decision now expires c.nonce)

  abbrev pub present_challenge :
      Faults
      → Challenges
      → ℕ
      → Authorization
      → Option PreparedEdit
      → ApprovalChallenge
      → M ActionResult
  present_challenge faults c now a edit challenge = do
    audit o w faults.outcome a "approval_challenge_issued" now
    result_of o w a (c.render challenge a.request edit) "approval_required" now

  abbrev pub challenge_until :
      Faults → Challenges → ℕ → Authorization → Option PreparedEdit → ℕ → M ActionResult
  challenge_until faults c now a edit expires =
      return (issue_challenge c now a expires) >>= present_challenge faults c now a edit

  abbrev pub prepare_challenge :
      Faults → Challenges → ℕ → Authorization → Option PreparedEdit → M ActionResult
  prepare_challenge faults c now a edit =
      return (challenge_expiry now a.request) >>= challenge_until faults c now a edit

  -- `prepare_approved_at` from its automatic branch on
  abbrev pub prepare_decided :
      Faults → Challenges → ℕ → Authorization → Option PreparedEdit → Bool → M ActionResult
  prepare_decided faults c now a edit true = run_authorized o w a >>= prepare_completed faults a now
  prepare_decided faults c now a edit false = do
    refuse_unneeded o w faults a now (requires_approval a)
    prepare_challenge faults c now a edit

  abbrev pub is_automatic : Authorization → Bool
  is_automatic a = is_auto a.decision.kind && (is_policy_write a || is_safe_terminal a)

  abbrev pub prepare_present :
      Faults → Challenges → ℕ → Authorization × Option PreparedEdit → M ActionResult
  prepare_present faults c now (a, edit) = prepare_decided faults c now a edit (is_automatic a)

  abbrev pub prepare_permitted : Faults → Challenges → ℕ → Authorization → M ActionResult
  prepare_permitted faults c now first =
      prepare_recipe faults first now (get "edit_recipe" first.request.envelope.parameters)
      >>= prepare_present faults c now

  -- from the decision on
  abbrev pub prepare_authorized : Faults → Challenges → ℕ → Authorization → M ActionResult
  prepare_authorized faults c now first =
      refuse (is_denied first) denied >> prepare_permitted faults c now first

  abbrev pub prepare_checked : Faults → Challenges → ActionRequest → ℕ → M ActionResult
  prepare_checked faults c request now =
      authorize o w faults.authorize request now >>= prepare_authorized faults c now

  abbrev pub prepare_on_device : Faults → Challenges → ActionRequest → ℕ → M ActionResult
  prepare_on_device faults c request now =
      check_approved_action o w request >> prepare_checked faults c request now

  unfoldable pub prepare_approved_at : Faults → Challenges → ActionRequest → ℕ → M ActionResult
  prepare_approved_at faults c request now =
      check_device o w request >> prepare_on_device faults c request now

  -- `dispatch_proto_at`, on the decoded request
  unfoldable pub dispatch_request : Faults → Challenges → ActionRequest → ℕ → M ActionResult
  dispatch_request faults c request now =
      if remote_approved_action_allowed request.envelope.action
      then prepare_approved_at faults c request now
      else dispatch_at o w faults request now
