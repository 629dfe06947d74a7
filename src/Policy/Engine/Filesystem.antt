-- ===== src/Policy/Engine/Filesystem.antt =====
-- The longest matching rule decides: what `filesystem_decision` picks.
use mathlib.Core.Path.{subst}
use vor_commander.Base.{
  ◌≤◌, ◌≡◌, ◌⊎◌, refl, sym, ap, ◌∙◌, Bool, true, Option, none, some, List, [], ◌∷◌, ltb,
  if◌then◌else◌, arith, inl, inr, In, here, there, Bool-cases, ltb→lt,
}
use vor_commander.Base.Text.{Text, codes, byte_len}
use vor_commander.WinPath.{windows_path_within}
use vor_commander.Policy.Config.{Externals, FilesystemRule, RuleDecision, PolicyEngine}
use vor_commander.Policy.Normalize.{normalize_windows_path}
use vor_commander.Policy.Engine.{
  Candidate, add_candidate, candidates, longer, longest, pick_rule, filesystem_decision,
}

-- A rule of the configuration whose root the target is within, with that root's normal form.
pub record IsMatch (x : Externals) (rules : List FilesystemRule) (target root : Text)
    (rule : FilesystemRule) : Type 0 where
  pub listed : In rule rules
  pub normal : normalize_windows_path x (codes rule.path) ≡ some root
  pub within : windows_path_within target root ≡ true

module _ (x : Externals) (target : Text) where
  candidates_complete :
      {root : Text} {rule : FilesystemRule} {rules : List FilesystemRule}
      → In rule rules
      → normalize_windows_path x (codes rule.path) ≡ some root
      → windows_path_within target root ≡ true
      → In (root, rule) (candidates x target rules)
  unfolding candidates
  candidates_complete {root = root} {rule = rule} (here r rs e) n w =
      let now : add_candidate target (normalize_windows_path x (codes r.path)) r
            (candidates x target rs)
          ≡ (root, r) ∷ candidates x target rs =
        ground (
          arith,
          e,
          n,
          w,
          ap (λ (q : FilesystemRule). normalize_windows_path x (codes q.path)) e,
        ) in
      rw now (here (root, r) (candidates x target rs) (ap (λ q. (root, q)) e))
  candidates_complete {root = root} {rule = rule} (there r rs i) n w =
      keep (normalize_windows_path x (codes r.path)) (candidates_complete i n w)
    where
      keep :
          {c : Candidate} {cs : List Candidate} (o : Option Text)
          → In c cs
          → In c (add_candidate target o r cs)
      keep none i = i
      keep {cs = cs} (some root') i = elim (Bool-cases (windows_path_within target root')) [
        | inl e ↦ rw e (there (root', r) cs i)
        | inr e ↦ rw e i
      ]

  candidates_sound :
      (rules : List FilesystemRule) (root : Text) (rule : FilesystemRule)
      → In (root, rule) (candidates x target rules)
      → IsMatch x rules target root rule
  unfolding candidates
  candidates_sound [] root rule i = elim i [ ]
  candidates_sound (r ∷ rs) root rule i =
      go (normalize_windows_path x (codes r.path)) refl (candidates x target rs)
        (candidates_sound rs root rule) i
    where
      later : IsMatch x rs target root rule → IsMatch x (r ∷ rs) target root rule
      later m = record { listed = there r rs m.listed; normal = m.normal; within = m.within }

      first :
          (root' : Text)
          → normalize_windows_path x (codes r.path) ≡ some root'
          → windows_path_within target root' ≡ true
          → (cs : List Candidate) → (In (root, rule) cs → IsMatch x rs target root rule)
          → In (root, rule) ((root', r) ∷ cs)
          → IsMatch x (r ∷ rs) target root rule
      first root' n w cs ih (here _ _ e) = record {
        listed = here r rs (ap (λ (c : Candidate). c.1) e);
        normal =
            ap (λ (c : Candidate). normalize_windows_path x (codes c.1.path)) (sym e)
            ∙ n
            ∙ ap (λ (c : Candidate). some c.0) e;
        within = ap (λ (c : Candidate). windows_path_within target c.0) (sym e) ∙ w;
      }
      first root' n w cs ih (there _ _ i) = later (ih i)

      go :
          (o : Option Text)
          → normalize_windows_path x (codes r.path) ≡ o
          → (cs : List Candidate) → (In (root, rule) cs → IsMatch x rs target root rule)
          → In (root, rule) (add_candidate target o r cs)
          → IsMatch x (r ∷ rs) target root rule
      go none n cs ih i = later (ih i)
      go (some root') n cs ih i = elim (Bool-cases (windows_path_within target root')) [
        | inl w ↦ first root' n w cs ih (rw w at i)
        | inr w ↦ later (ih (rw w at i))
      ]

-- The chosen candidate is one of the list, and none of the list has a longer root.
pub record IsLongest (c : Candidate) (cs : List Candidate) : Type 0 where
  pub listed : In c cs
  pub longest : (d : Candidate) → In d cs → byte_len d.0 ≤ byte_len c.0

IsLongest-first :
    (a : Candidate) (cs : List Candidate)
    → ((d : Candidate) → In d cs → byte_len d.0 ≤ byte_len a.0)
    → IsLongest a (a ∷ cs)
IsLongest-first a cs h = record { listed = here a cs refl; longest = bound }
  where
    bound : (d : Candidate) → In d (a ∷ cs) → byte_len d.0 ≤ byte_len a.0
    bound d (here _ _ e) = omega (arith, ap (λ (c : Candidate). byte_len c.0) e)
    bound d (there _ _ i) = h d i

IsLongest-later :
    (a b : Candidate) (cs : List Candidate)
    → IsLongest b cs
    → byte_len a.0 ≤ byte_len b.0
    → IsLongest b (a ∷ cs)
IsLongest-later a b cs v le = record { listed = there a cs v.listed; longest = bound }
  where
    bound : (d : Candidate) → In d (a ∷ cs) → byte_len d.0 ≤ byte_len b.0
    bound d (here _ _ e) = omega (arith, ap (λ (c : Candidate). byte_len c.0) e)
    bound d (there _ _ i) = v.longest d i

IsLongest-longest :
    (a : Candidate) (cs : List Candidate) → IsLongest (longer a (longest cs)) (a ∷ cs)
unfolding longest
IsLongest-longest a [] = IsLongest-first a [] (λ d i. elim i [ ])
IsLongest-longest a (b ∷ cs) =
    let c = longer b (longest cs) in
    let ih : IsLongest c (b ∷ cs) = IsLongest-longest b cs in
    elim (Bool-cases (ltb (byte_len c.0) (byte_len a.0))) [
      | inl e ↦ rw e (
          IsLongest-first a (b ∷ cs)
            (λ d i. omega (arith, ltb→lt (byte_len c.0) (byte_len a.0) e, ih.longest d i)))
      | inr e ↦ rw e (IsLongest-later a c (b ∷ cs) ih (ground (arith, e)))
    ]

abbrev pub access : Bool → FilesystemRule → RuleDecision
access write rule = if write then rule.write else rule.read

-- A matching rule with a root as long as that of any matching rule.
pub record IsGoverning (x : Externals) (rules : List FilesystemRule) (target root : Text)
    (rule : FilesystemRule) : Type 0 where
  pub match : IsMatch x rules target root rule
  pub longest :
      (root' : Text) (rule' : FilesystemRule)
      → IsMatch x rules target root' rule'
      → byte_len root' ≤ byte_len root

module _ (x : Externals) (engine : PolicyEngine) (write : Bool) where
  governed :
      (target : Text) (cs : List Candidate)
      → candidates x target engine.config.filesystem ≡ cs
      → ((pick_rule write (longest cs) ≡ RuleDecision.deny)
          × ((root : Text) (rule : FilesystemRule)
              → ¬ IsMatch x engine.config.filesystem target root rule))
        ⊎ ((root : Text) × (rule : FilesystemRule) × IsGoverning x engine.config.filesystem target
              root rule
            × (pick_rule write (longest cs) ≡ access write rule))
  unfolding longest
  governed target [] e = inl (
    refl,
    λ root rule m.
        absurd_in
          (subst (In (root, rule)) e (candidates_complete x target m.listed m.normal m.within)),
  )
    where
      absurd_in : {c : Candidate} → In c [] → ⊥
      absurd_in i = elim i [ ]
  governed target (a ∷ cs) e =
      let c = longer a (longest cs) in
      let best = IsLongest-longest a cs in
      inr (
        c.0,
        c.1,
        record {
          match =
              candidates_sound x target engine.config.filesystem c.0 c.1
                (subst (In c) (sym e) best.listed);
          longest = λ root' rule' m.
              best.longest (root', rule')
                (subst (In (root', rule')) e
                  (candidates_complete x target m.listed m.normal m.within));
        },
        refl,
      )

  -- Where the target has a normal form, either no rule's root contains it and it is denied, or the
  -- decision is that of a rule whose root contains it and is as long as any other that does.
  pub decision_by_longest :
      (input target : Text)
      → normalize_windows_path x input ≡ some target
      → ((filesystem_decision x engine input write ≡ RuleDecision.deny)
          × ((root : Text) (rule : FilesystemRule)
              → ¬ IsMatch x engine.config.filesystem target root rule))
        ⊎ ((root : Text) × (rule : FilesystemRule) × IsGoverning x engine.config.filesystem target
              root rule
            × (filesystem_decision x engine input write ≡ access write rule))
  unfolding filesystem_decision
  decision_by_longest input target n =
      rw n (governed target (candidates x target engine.config.filesystem) refl)

  -- A target with no normal form is denied, whatever the rules.
  pub decision_ambiguous :
      (input : Text)
      → normalize_windows_path x input ≡ none
      → filesystem_decision x engine input write ≡ RuleDecision.deny
  unfolding filesystem_decision
  decision_ambiguous input n = rw n
