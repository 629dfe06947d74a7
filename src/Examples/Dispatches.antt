-- ===== src/Examples/Dispatches.antt =====
-- A device that ends a process once, on an approved request.
use vor_commander.Base.{◌≡◌, refl, [], ◌∷◌, ok, err, All}
use vor_commander.Base.Map.{get}
use vor_commander.Base.Text.{utf8, is_blank, is_whitespace}
use vor_commander.Protocol
use vor_commander.Protocol.{
  ActionRequest, PolicyDecision, PolicyDecisionKind, digest, normalized, validate_envelope,
  require_fields,
}
use vor_commander.Policy.Engine.{evaluate, decision, rule_for, system_rule}
use vor_commander.Approval
use vor_commander.Approval.{
  approval_message, push_text, validate_text, u64_be_bytes, ensure_decision_matches,
  verify_challenge_binding, check_approver, required_for,
}
use vor_commander.Audit.Table.{find_row}
use vor_commander.Audit.Store.{
  no_fault, append, prepare, current_last, load_jsonl_last, load_db_last, hash_record,
  has_outcome_for,
}
use vor_commander.Audit.Recovery.{completed, claim_approval_consumed}
use vor_commander.Core.{
  decide, rate_limit, consume_approval_at, check_approval, claim, and_then, log_consumption,
  append_approval_event, authorize_at, audit_outcome_at, set_execution_recovery_state,
}
use vor_commander.Examples.Approvals.{stop_request, signed_approval, registry}
use vor_commander.Examples.Brokers.{outside, broker, answer}
use vor_commander.Dispatch.State.{
  Dispatcher, Workers, approved, remote_action_not_allowed, remote_approved_action_allowed,
}
use vor_commander.Dispatch.Dispatcher.{Faults, execute_approved, success_result}
use vor_commander.Dispatch.Approved.{dispatch_approved_at, execute_consumed}
use vor_commander.Dispatch.Hoare.{IsBacked, Distinct}
use vor_commander.Dispatch.Checked.{IsOutcome, approved_checked_or_refused}
use vor_commander.Dispatch.Steps.{here, then_step, dispatch_approved, effect_once}

abbrev workers : Workers
workers = record {
  write_approved = λ done x. err remote_action_not_allowed;
  exec_approved = λ done x. err remote_action_not_allowed;
  terminate_approved = λ done x. ok (1 ∷ [], "application/json");
  browse_approved = λ done x. err remote_action_not_allowed;
  execute_authorized = λ done a. err remote_action_not_allowed;
  prepare_edit = λ a v. err remote_action_not_allowed;
}

abbrev no_faults : Faults
no_faults = record {
  authorize = no_fault;
  reauthorize = no_fault;
  verified = no_fault;
  consumed = no_fault;
  outcome = no_fault;
}

abbrev device : Dispatcher
device = record {
  device_id = stop_request.envelope.device_id;
  broker = broker;
  approval_verifier = registry;
  max_output_bytes = 100;
  effects = [];
}

abbrev after_first : Dispatcher
after_first =
    (dispatch_approved_at outside workers no_faults stop_request signed_approval 10 device).0

abbrev after_second : Dispatcher
after_second =
    (dispatch_approved_at outside workers no_faults stop_request signed_approval 20 after_first).0

effect_once_example :
    Distinct after_second.effects
    × All (IsBacked after_second.broker.ledger.disk) after_second.effects
effect_once_example = effect_once outside workers device after_second refl (
    then_step (then_step here (dispatch_approved no_faults stop_request signed_approval 10 device))
      (dispatch_approved no_faults stop_request signed_approval 20 after_first))

-- the process is ended by the first request
ended_once : after_first.effects ≡ approved answer ∷ []
unfolding dispatch_approved_at execute_consumed execute_approved success_result
    remote_approved_action_allowed authorize_at audit_outcome_at set_execution_recovery_state decide
    rate_limit consume_approval_at check_approval and_then claim claim_approval_consumed
    log_consumption append_approval_event append prepare current_last load_jsonl_last load_db_last
    hash_record has_outcome_for Protocol.verify digest normalized validate_envelope require_fields
    is_blank is_whitespace utf8 evaluate decision rule_for system_rule Approval.verify
    approval_message push_text validate_text u64_be_bytes ensure_decision_matches
    verify_challenge_binding check_approver required_for get find_row
    vor_commander.Audit.Recovery.set_execution_recovery_state vor_commander.Audit.Table.add_row
    vor_commander.Audit.Recovery.parse_state vor_commander.Audit.Table.update_row
    vor_commander.Audit.Recovery.as_str vor_commander.Wire.ms_to_timestamp
ended_once = refl

approved_checked_or_refused_example :
    IsOutcome outside workers stop_request signed_approval 10 device
      (dispatch_approved_at outside workers no_faults stop_request signed_approval 10 device)
approved_checked_or_refused_example =
    approved_checked_or_refused outside workers stop_request signed_approval 10 device no_faults
