-- ===== src/Policy/Engine/Kinds.antt =====
-- Deny by default, and what every decision carries.
use vor_commander.Base.{
  ◌≡◌, ◌⊎◌, refl, ap, ◌∙◌, Bool, false, String, none, some, List, [], ◌∷◌, if◌then◌else◌, arith,
  any-false, str_eq, ◌&&◌,
}
use vor_commander.Base.Text.{codes, has_prefix}
use vor_commander.Protocol.{ActionRequest, PolicyDecisionKind}
use vor_commander.Policy.Config.{Externals, RuleDecision, PolicyEngine}
use vor_commander.Policy.Engine.{rule_for, system_rule, other_rule, evaluate, decision_kind, one_of}

-- The actions that the policy knows by name.
abbrev pub known_actions : List String
known_actions =
    "filesystem.read" ∷ "filesystem.list" ∷ "filesystem.search_files" ∷ "filesystem.search_content"
    ∷ "filesystem.info" ∷ "filesystem.write" ∷ "terminal.exec" ∷ "terminal.poll" ∷ "terminal.cancel"
    ∷ "terminal.project_test" ∷ "terminal.destructive" ∷ "terminal.elevated" ∷ "process.list"
    ∷ "process.inspect" ∷ "process.terminate" ∷ "git.status" ∷ "git.diff" ∷ "browser.session.use"
    ∷ "browser.secret.extract" ∷ "browser.publish" ∷ "browser.purchase" ∷ "network.public_listener"
    ∷ []

other_kind :
    (x : Externals) (desktop enabled : Bool)
    → let r : RuleDecision × String =
        if desktop
        then (if enabled
            then (RuleDecision.approval, "desktop_approval")
            else (RuleDecision.deny, "desktop_disabled"))
        else (RuleDecision.deny, "unknown_action") in
      (decision_kind x r.0).0
      ≡ (if desktop && enabled then PolicyDecisionKind.approval else PolicyDecisionKind.deny)
other_kind x desktop enabled = ground arith

module _ (x : Externals) (engine : PolicyEngine) (request : ActionRequest) where
  system_rule_unknown :
      (action : String)
      → one_of x known_actions action ≡ false
      → system_rule x engine request action ≡ other_rule x engine action
  unfolding system_rule
  system_rule_unknown action h =
      let a = any-false (str_eq action) known_actions h in
      simp (
        a.1.1.1.1.1.1.1.1.1.1.1.1.0, a.1.1.1.1.1.1.1.1.1.1.1.1.1.0, a.1.1.1.1.1.1.1.1.1.1.1.1.1.1.0,
        a.1.1.1.1.1.1.1.1.1.1.1.1.1.1.1.0, a.1.1.1.1.1.1.1.1.1.1.1.1.1.1.1.1.0,
        a.1.1.1.1.1.1.1.1.1.1.1.1.1.1.1.1.1.0, a.1.1.1.1.1.1.1.1.1.1.1.1.1.1.1.1.1.1.0,
        a.1.1.1.1.1.1.1.1.1.1.1.1.1.1.1.1.1.1.1.0, a.1.1.1.1.1.1.1.1.1.1.1.1.1.1.1.1.1.1.1.1.0,
        a.1.1.1.1.1.1.1.1.1.1.1.1.1.1.1.1.1.1.1.1.1.0,
      )

  rule_for_unknown :
      (action : String)
      → one_of x known_actions action ≡ false
      → rule_for x engine request action ≡ system_rule x engine request action
  unfolding rule_for
  rule_for_unknown action h =
      let a = any-false (str_eq action) known_actions h in
      simp (
        a.0, a.1.0, a.1.1.0, a.1.1.1.0, a.1.1.1.1.0, a.1.1.1.1.1.0, a.1.1.1.1.1.1.0,
        a.1.1.1.1.1.1.1.0, a.1.1.1.1.1.1.1.1.0, a.1.1.1.1.1.1.1.1.1.0, a.1.1.1.1.1.1.1.1.1.1.0,
        a.1.1.1.1.1.1.1.1.1.1.1.0,
      )

  -- An action that the policy does not know by name is denied; an action of the desktop needs a
  -- signature where the desktop is enabled, and is denied where it is not.
  pub unknown_denied :
      one_of x known_actions request.envelope.action ≡ false
      → (evaluate x engine request).kind ≡ (
          if has_prefix (codes "desktop.") (codes request.envelope.action)
            && engine.config.desktop.enabled
          then PolicyDecisionKind.approval
          else PolicyDecisionKind.deny)
  unfolding evaluate other_rule
  unknown_denied h =
      ap (λ r. (decision_kind x r.0).0)
        (rule_for_unknown request.envelope.action h ∙ system_rule_unknown request.envelope.action h)
      ∙ other_kind x (has_prefix (codes "desktop.") (codes request.envelope.action))
          engine.config.desktop.enabled

  -- Every decision names the request and the digest that it is for, and asks for a capability only
  -- as the `elevated` one of a decision that needs a signature.
  pub decision_bound :
      ((evaluate x engine request).request_id ≡ request.envelope.request_id)
      × ((evaluate x engine request).envelope_digest ≡ request.envelope_digest)
      × (((evaluate x engine request).required_capability ≡ none)
          ⊎ (((evaluate x engine request).required_capability ≡ some "elevated")
              × ((evaluate x engine request).kind ≡ PolicyDecisionKind.approval)))
  unfolding evaluate
  decision_bound = (refl, refl, capability (rule_for x engine request request.envelope.action).0)
    where
      capability :
          (r : RuleDecision)
          → ((decision_kind x r).1 ≡ none)
            ⊎ (((decision_kind x r).1 ≡ some "elevated")
                × ((decision_kind x r).0 ≡ PolicyDecisionKind.approval))
      capability r = ground arith
