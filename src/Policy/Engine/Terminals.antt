-- ===== src/Policy/Engine/Terminals.antt =====
-- When a command runs from the safe list, without a signature.
use vor_commander.Base.{
  ◌≡◌, ◌≢◌, refl, sym, ap, ◌∙◌, Bool, true, false, String, Option, none, some, List, [], ◌∷◌, map,
  if◌then◌else◌, arith, Option-cases, Bool-cases, inl, inr, In, here, there, any, eq_iff, ◌||◌,
}
use vor_commander.Base.Text.{Text, codes, text_eq→≡}
use vor_commander.Protocol.{ActionRequest}
use vor_commander.Policy.Config.{Externals, PolicyEngine, SafeCommandRule, policy}
use vor_commander.Policy.Terminal.{
  command_is_inline_eval, contains_shell_control, forbidden_safe_argument,
  forbidden_safe_executable, executable_name_matches, resolve_safe_executable_path, same_arguments,
  rule_matches, safe_command_matches,
}
use vor_commander.Policy.Engine.{
  decide_argv, terminal_argv, terminal_exec_decision, rule_for, evaluate,
}

same_arguments_sound :
    (x : Externals) (xs : List Text) (rs : List String)
    → same_arguments x xs rs ≡ true
    → xs ≡ map codes rs
same_arguments_sound x [] [] h = refl
same_arguments_sound x [] (r ∷ rs) h = cc
same_arguments_sound x (a ∷ xs) [] h = cc
same_arguments_sound x (a ∷ xs) (r ∷ rs) h =
    ground (arith, text_eq→≡ a (codes r), same_arguments_sound x xs rs)

any_sound {ℓ} :
    {A : Type ℓ} (p : A → Bool) (xs : List A) → any p xs ≡ true → (a : A) × In a xs × (p a ≡ true)
any_sound p [] h = cc
any_sound p (a ∷ xs) h = elim (Bool-cases (p a)) [
  | inl e ↦ (a, here a xs refl, e)
  | inr e ↦ let (b, i, k) = any_sound p xs (ground (arith, e, h)) in (b, there a xs i, k)
]

passed :
    (c f o b : Bool)
    → (if c || f || o then false else b) ≡ true
    → (c ≡ false) × (f ≡ false) × (o ≡ false) × (b ≡ true)
passed c f o b h = (ground arith, ground arith, ground arith, ground arith)

-- A command line that is one of the safe list, word for word.
pub record IsListed (x : Externals) (engine : PolicyEngine) (program : Text) (arguments : List Text)
    : Type 0 where
  pub executable : Text
  pub resolved :
      resolve_safe_executable_path x program engine.config.terminal.safe_executable_paths
      ≡ some executable
  pub ordinary : forbidden_safe_executable x executable ≡ false
  pub rule : SafeCommandRule
  pub listed : In rule engine.config.terminal.safe_commands
  pub named : executable_name_matches x executable (codes rule.executable) ≡ true
  pub exact : arguments ≡ map codes rule.arguments
  pub plain : any contains_shell_control (program ∷ arguments) ≡ false
  pub allowed : any forbidden_safe_argument arguments ≡ false

-- What is needed for a command to run from the safe list.
pub record IsSafe (x : Externals) (engine : PolicyEngine) (request : ActionRequest) : Type 0 where
  pub program : Text
  pub arguments : List Text
  pub argv : terminal_argv request ≡ some (program ∷ arguments)
  pub mode : engine.config.mode ≡ policy
  pub no_code : command_is_inline_eval (program ∷ arguments) ≡ false
  pub on_list : IsListed x engine program arguments

module _ (x : Externals) (engine : PolicyEngine) where
  IsListed-of_rule :
      (program : Text) (arguments : List Text) (executable : Text)
      → resolve_safe_executable_path x program engine.config.terminal.safe_executable_paths
        ≡ some executable
      → forbidden_safe_executable x executable ≡ false
      → any contains_shell_control (program ∷ arguments) ≡ false
      → any forbidden_safe_argument arguments ≡ false
      → any (rule_matches x executable arguments) engine.config.terminal.safe_commands ≡ true
      → IsListed x engine program arguments
  unfolding rule_matches
  IsListed-of_rule program arguments executable r o c f h =
      let (rule, i, m) =
        any_sound (rule_matches x executable arguments) engine.config.terminal.safe_commands h in
      record {
        executable = executable;
        resolved = r;
        ordinary = o;
        rule = rule;
        listed = i;
        named = ground (arith, m);
        exact = same_arguments_sound x arguments rule.arguments (ground (arith, m));
        plain = c;
        allowed = f;
      }

  IsListed-of_match :
      (program : Text) (arguments : List Text)
      → safe_command_matches x
          (program ∷ arguments)
          engine.config.terminal.safe_commands
          engine.config.terminal.safe_executable_paths
        ≡ true
      → IsListed x engine program arguments
  unfolding safe_command_matches
  IsListed-of_match program arguments h =
      elim (Option-cases
        (resolve_safe_executable_path x program engine.config.terminal.safe_executable_paths)) [
          | inl n ↦ cc (rw (n, safe_command_matches) at h)
          | inr (executable, n) ↦
              let (c, f, o, b) =
                passed (any contains_shell_control (program ∷ arguments))
                  (any forbidden_safe_argument arguments) (forbidden_safe_executable x executable)
                  (any (rule_matches x executable arguments) engine.config.terminal.safe_commands)
                  (rw (n, safe_command_matches) at h) in
              IsListed-of_rule program arguments executable n o c f b
        ]

  -- The reason given for each way that a command line is decided.
  reason_safe :
      (argv : List Text)
      → (decide_argv x engine (some argv)).1 ≡ "terminal_safe_list"
      → (command_is_inline_eval argv ≡ false)
        × (engine.config.mode ≡ policy)
        × (safe_command_matches x argv engine.config.terminal.safe_commands
              engine.config.terminal.safe_executable_paths
            ≡ true)
  reason_safe argv h = (
    ground (arith, h, eq_iff "terminal_inline_eval" "terminal_safe_list"),
    ground (
      arith,
      h,
      eq_iff "terminal_inline_eval" "terminal_safe_list",
      eq_iff "terminal_default" "terminal_safe_list",
    ),
    ground (
      arith,
      h,
      eq_iff "terminal_inline_eval" "terminal_safe_list",
      eq_iff "terminal_default" "terminal_safe_list",
    ),
  )

  not_empty : (decide_argv x engine (some [])).1 ≢ "terminal_safe_list"
  unfolding command_is_inline_eval safe_command_matches
  not_empty h = ground (arith, h, eq_iff "terminal_default" "terminal_safe_list")

  IsSafe-of_argv :
      (request : ActionRequest) (o : Option (List Text))
      → terminal_argv request ≡ o
      → (decide_argv x engine o).1 ≡ "terminal_safe_list"
      → IsSafe x engine request
  IsSafe-of_argv request none n h =
      absurd (ground (arith, h, eq_iff "terminal_argv_required" "terminal_safe_list"))
  IsSafe-of_argv request (some []) n h = absurd (not_empty h)
  IsSafe-of_argv request (some (program ∷ arguments)) n h =
      let (e, m, s) = reason_safe (program ∷ arguments) h in
      record {
        program = program;
        arguments = arguments;
        argv = n;
        mode = m;
        no_code = e;
        on_list = IsListed-of_match program arguments s;
      }

  -- A command is run from the safe list only in policy mode, where it evaluates no inline code, its
  -- program resolves to a trusted executable that is no shell, and its arguments are word for word
  -- those of a rule, without shell control characters or forbidden options.
  pub IsSafe-list_exact :
      (request : ActionRequest)
      → request.envelope.action ≡ "terminal.exec"
      → (evaluate x engine request).reason_code ≡ "terminal_safe_list"
      → IsSafe x engine request
  unfolding evaluate rule_for terminal_exec_decision
  IsSafe-list_exact request a h =
      IsSafe-of_argv request (terminal_argv request) refl
        (ap (λ action. (rule_for x engine request action).1) (sym a) ∙ h)
