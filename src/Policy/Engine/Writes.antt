-- ===== src/Policy/Engine/Writes.antt =====
-- When a write is allowed without a signature.
use vor_commander.Base.{
  ℕ, ◌≤◌, ◌≡◌, ◌≢◌, ◌↔◌, ap, ◌∙◌, true, false, some, arith, Option-cases, inl, inr,
}
use vor_commander.Base.Text.{Text, codes}
use vor_commander.Json.{as_bool, as_u64, as_str}
use vor_commander.Protocol.{ActionRequest, PolicyDecisionKind}
use vor_commander.WinPath.{sensitive_windows_path}
use vor_commander.Policy.Config.{Externals, RuleDecision, PolicyEngine, policy}
use vor_commander.Policy.Normalize.{normalize_windows_path}
use vor_commander.Policy.Engine.{
  parameter, valid_precondition, filesystem_decision, filesystem_write_decision, rule_for, evaluate,
  decision_kind,
}

-- All that an unsigned write needs.
pub record IsAutoWritable (x : Externals) (engine : PolicyEngine) (request : ActionRequest)
    : Type 0 where
  pub rule : filesystem_decision x engine (codes request.envelope.target) true ≡ RuleDecision.auto
  pub mode : engine.config.mode ≡ policy
  pub unsigned_path : parameter request "approval_path" as_bool ≢ some true
  pub path : Text
  pub normal : normalize_windows_path x (codes request.envelope.target) ≡ some path
  pub ordinary : sensitive_windows_path path ≡ false
  pub size : ℕ
  pub declared : parameter request "content_bytes" as_u64 ≡ some size
  pub small : size ≤ engine.config.auto_write.max_bytes
  pub precondition : valid_precondition x (parameter request "expected_target_sha256" as_str) ≡ true

module _ (x : Externals) (engine : PolicyEngine) (request : ActionRequest) where
  write_sound :
      (filesystem_write_decision x engine request).0 ≡ RuleDecision.auto
      → IsAutoWritable x engine request
  unfolding filesystem_write_decision
  write_sound h = elim (Option-cases (normalize_windows_path x (codes request.envelope.target))) [
    | inl n ↦ absurd (ground (arith, n, h))
    | inr (p, n) ↦ elim (Option-cases (parameter request "content_bytes" as_u64)) [
      | inl s ↦ absurd (ground (arith, n, s, h))
      | inr (size, s) ↦ record {
        rule = ground (arith, n, s, h);
        mode = ground (arith, n, s, h);
        unsigned_path = ground (arith, n, s, h);
        path = p;
        normal = n;
        ordinary = ground (arith, n, s, h);
        size = size;
        declared = s;
        small = ground (arith, n, s, h);
        precondition = ground (arith, n, s, h);
      }
    ]
  ]

  write_complete :
      IsAutoWritable x engine request
      → (filesystem_write_decision x engine request).0 ≡ RuleDecision.auto
  unfolding filesystem_write_decision
  write_complete v = ground (
    arith, v.rule, v.mode, v.unsigned_path, v.normal, v.ordinary, v.declared, v.small,
    v.precondition,
  )

  evaluate-write :
      request.envelope.action ≡ "filesystem.write"
      → (evaluate x engine request).kind
        ≡ (decision_kind x (filesystem_write_decision x engine request).0).0
  unfolding evaluate rule_for
  evaluate-write a = ap (λ action. (decision_kind x (rule_for x engine request action).0).0) a

  write_reason :
      (filesystem_write_decision x engine request).0 ≡ RuleDecision.auto
      → (filesystem_write_decision x engine request).1 ≡ "auto_write_safe"
  unfolding filesystem_write_decision
  write_reason h = elim (Option-cases (normalize_windows_path x (codes request.envelope.target))) [
    | inl n ↦ absurd (ground (arith, n, h))
    | inr (p, n) ↦ elim (Option-cases (parameter request "content_bytes" as_u64)) [
      | inl s ↦ absurd (ground (arith, n, s, h))
      | inr (size, s) ↦ ground (arith, n, s, h)
    ]
  ]

  pub evaluate-write_reason :
      request.envelope.action ≡ "filesystem.write"
      → (evaluate x engine request).kind ≡ PolicyDecisionKind.auto
      → (evaluate x engine request).reason_code ≡ "auto_write_safe"
  unfolding evaluate rule_for
  evaluate-write_reason a k =
      ap (λ action. (rule_for x engine request action).1) a
      ∙ write_reason (ground (arith, evaluate-write a, k))

  -- A write is allowed without a signature exactly when its rule says so, the mode is not strict,
  -- the request does not ask for the signed path, its target has a normal form that is not
  -- sensitive, and it declares a size within the limit and a precondition on the target.
  pub write_auto_iff :
      request.envelope.action ≡ "filesystem.write"
      → ((evaluate x engine request).kind ≡ PolicyDecisionKind.auto)
        ↔ IsAutoWritable x engine request
  write_auto_iff a = (
    λ k. write_sound (ground (arith, evaluate-write a, k)),
    λ v. ground (arith, evaluate-write a, write_complete v),
  )
