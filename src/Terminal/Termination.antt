-- ===== src/Terminal/Termination.antt =====
-- The loop of `run` of crates/vor-terminal/src/lib.rs ends, and what it returns is bounded.
use vor_commander.Base.{
  ℕ, zero, suc, ◌+◌, ◌*◌, ◌≤◌, ◌≡◌, ◌≢◌, refl, Bool, false, not, Option, none, some, List, [], ◌++◌,
  ◌||◌, leb, ltb, ◌==◌, Result, ok, err, arith, inl, inr, length, length-append, Bool-cases,
  Result-cases, >>=-eq-ok, reject_if-eq-ok,
}
use vor_commander.Base.Text.{Text, is_empty}
use vor_commander.Terminal.Types.{
  TerminalSpec, TerminalRunResult, BoundedTerminal, TerminalError, Platform, cancelled, timeout,
  empty_arguments, argument_count_exceeded, argument_bytes_exceeded, invalid_timeout,
}
use vor_commander.Terminal.Run.{
  Child, Ended, kill, then_continue, append_output, drain_output, finish_run, run_loop, run,
  prepare, usize_end, has_executable, total_arg_bytes,
}

kill-not-ok {ℓ} :
    {A : Type ℓ} (child : Child) (code : ℕ) (e : TerminalError) (a : A)
    → (kill child code e).result ≢ ok a
kill-not-ok child code e a h = elim (Result-cases child.terminated) [
  | inl (u, q) ↦ ground (arith, rw q at h)
  | inr (x, q) ↦ ground (arith, rw q at h)
]

then_continue-eq-ok {ℓ κ} :
    {A : Type ℓ} {B : Type κ} (e : Ended A) (k : A → Ended B) {b : B}
    → (then_continue e k).result ≡ ok b
    → (a : A) × (e.result ≡ ok a) × ((k a).result ≡ ok b)
then_continue-eq-ok e k h = elim (Result-cases e.result) [
  | inl (a, q) ↦ (a, q, rw q at h)
  | inr (x, q) ↦ absurd (ground (arith, rw q at h))
]

append_output_bound :
    (child : Child) (limit : ℕ) (output new_bytes longer : List ℕ)
    → (append_output child limit output new_bytes).result ≡ ok longer
    → length longer ≤ limit
unfolding append_output
append_output_bound child limit output new_bytes longer h =
    elim (Bool-cases (leb usize_end (length output + length new_bytes))) [
      | inl e ↦ absurd (ground (arith, rw e at h))
      | inr e ↦ elim (Bool-cases (ltb limit (length output + length new_bytes))) [
        | inl q ↦ absurd (kill-not-ok child 0x000000EA _ longer (rw (e, q) at h))
        | inr q ↦
            let same : output ++ new_bytes ≡ longer = ground (arith, rw (e, q) at h) in
            ground (arith, q, same, length-append output new_bytes)
      ]
    ]

drain_output_bound :
    (child : Child) (limit rounds i empty_reads : ℕ) (output longer : List ℕ)
    → length output ≤ limit
    → (drain_output child limit rounds i empty_reads output).result ≡ ok longer
    → length longer ≤ limit
unfolding drain_output
drain_output_bound child limit zero i n output longer b h = absurd (ground (arith, h))
drain_output_bound child limit (suc rounds) i n output longer b h =
    elim (Result-cases (child.drained i)) [
      | inr (x, e) ↦ absurd (ground (arith, rw (e, drain_output) at h))
      | inl (new_bytes, e) ↦ elim (Bool-cases (is_empty new_bytes)) [
        | inl q ↦ elim (Bool-cases (leb 5 (n + 1))) [
          | inl five ↦ ground (arith, b, rw (e, q, five, drain_output) at h)
          | inr five ↦
              drain_output_bound child limit rounds (i + 1) (n + 1) output longer b
                (rw (e, q, five, drain_output) at h)
        ]
        | inr q ↦
            let (more, a, h1) =
              then_continue-eq-ok (append_output child limit output new_bytes)
                (λ more. drain_output child limit rounds (i + 1) 0 more)
                (rw (e, q, drain_output) at h) in
            drain_output_bound child limit rounds (i + 1) 0 more longer
              (append_output_bound child limit output new_bytes more a) h1
      ]
    ]

-- The run has ended, and if it gives a result then its output is within the limit.
abbrev pub IsEnded : ℕ → Option (Ended TerminalRunResult) → Type 0
IsEnded limit o =
    (e : Ended TerminalRunResult) × (o ≡ some e)
    × ((r : TerminalRunResult) → e.result ≡ ok r → length r.output ≤ limit)

IsEnded-badly :
    (limit : ℕ) (killed : Option ℕ) (x : TerminalError)
    → IsEnded limit (some (record { killed = killed; result = err x }))
IsEnded-badly limit killed x =
    (record { killed = killed; result = err x }, refl, λ r h. absurd (ground (arith, h)))

IsEnded-killed :
    (limit : ℕ) (child : Child) (code : ℕ) (x : TerminalError)
    → IsEnded limit (some (kill child code x))
IsEnded-killed limit child code x =
    (kill child code x, refl, λ r h. absurd (kill-not-ok child code x r h))

IsEnded-well :
    (limit : ℕ) (child : Child) (code : ℕ) (output : List ℕ)
    → length output ≤ limit
    → IsEnded limit (some (finish_run child limit code output))
IsEnded-well limit child code output b = (
  finish_run child limit code output,
  refl,
  λ r h.
      let (all_output, d, h1) =
        then_continue-eq-ok (drain_output child limit 256 0 0 output)
          (λ all_output. record {
            killed = none;
            result = ok (record { exit_code = code; output = all_output });
          })
          h in
      let within = drain_output_bound child limit 256 0 0 output all_output b d in
      ground (arith, h1, within),
)

-- Each round sleeps for ten milliseconds at least.
abbrev pub Sleeps : Child → Type 0
Sleeps child = (i : ℕ) → child.elapsed_ms i + 10 ≤ child.elapsed_ms (i + 1)

run_round :
    (child : Child) (spec : TerminalSpec) (fuel i : ℕ) (output : List ℕ)
    → ((longer : List ℕ)
        → leb spec.timeout_ms (child.elapsed_ms i) ≡ false
        → IsEnded spec.max_output_bytes (run_loop child spec fuel (i + 1) longer))
    → IsEnded spec.max_output_bytes (run_loop child spec (suc fuel) i output)
unfolding run_loop
run_round child spec fuel i output again = elim (Bool-cases (child.cancelled_at i)) [
  | inl c ↦ rw (c, run_loop) (IsEnded-killed spec.max_output_bytes child 0xC000013A cancelled)
  | inr c ↦ elim (Bool-cases (leb spec.timeout_ms (child.elapsed_ms i))) [
    | inl late ↦
        rw (c, late, run_loop)
          (IsEnded-killed spec.max_output_bytes child 0x000005B4 (timeout spec.timeout_ms))
    | inr late ↦ elim (Result-cases (child.chunk i)) [
      | inr (x, r) ↦ rw (c, late, r, run_loop) (IsEnded-badly spec.max_output_bytes none x)
      | inl (new_bytes, r) ↦
          elim (Result-cases (append_output child spec.max_output_bytes output new_bytes).result) [
            | inr (x, a) ↦ rw (c, late, r, a, run_loop) (IsEnded-badly spec.max_output_bytes _ x)
            | inl (longer, a) ↦ elim (Result-cases (child.exit_code i)) [
              | inr (x, w) ↦
                  rw (c, late, r, a, w, run_loop) (IsEnded-badly spec.max_output_bytes none x)
              | inl (some code, w) ↦
                  rw (c, late, r, a, w, run_loop)
                    (IsEnded-well spec.max_output_bytes child code longer
                      (append_output_bound child spec.max_output_bytes output new_bytes longer a))
              | inl (none, w) ↦ rw (c, late, r, a, w, run_loop) (again longer late)
            ]
          ]
    ]
  ]
]

run_loop-IsEnded :
    (child : Child) (spec : TerminalSpec) (fuel i : ℕ) (output : List ℕ)
    → Sleeps child
    → spec.timeout_ms ≤ child.elapsed_ms i + 10 * fuel
    → IsEnded spec.max_output_bytes (run_loop child spec (suc fuel) i output)
run_loop-IsEnded child spec zero i output sleeps enough =
    run_round child spec zero i output (λ longer late. absurd (ground (arith, late, enough)))
run_loop-IsEnded child spec (suc fuel) i output sleeps enough =
    run_round child spec (suc fuel) i output (λ longer late.
      run_loop-IsEnded child spec fuel (i + 1) longer sleeps (omega (arith, sleeps i, enough)))

module _ (platform : Platform) where
  prepare-timeout :
      (t : BoundedTerminal) (spec : TerminalSpec) (line : Text × Text)
      → prepare platform t spec ≡ ok line
      → spec.timeout_ms ≤ t.limits.max_timeout_ms
  unfolding prepare
  prepare-timeout t spec line h =
      let (_, h1) = reject_if-eq-ok (not (has_executable spec.argv)) empty_arguments _ h in
      let (_, h2) =
        reject_if-eq-ok (ltb t.limits.max_argc (length spec.argv))
          (argument_count_exceeded (length spec.argv) t.limits.max_argc) _ h1 in
      let (total, _, h3) = >>=-eq-ok (total_arg_bytes t.limits.max_arg_bytes 0 spec.argv) _ h2 in
      let (_, h4) =
        reject_if-eq-ok (ltb t.limits.max_arg_bytes total)
          (argument_bytes_exceeded total t.limits.max_arg_bytes) _ h3 in
      let (within, _) =
        reject_if-eq-ok (spec.timeout_ms == 0 || ltb t.limits.max_timeout_ms spec.timeout_ms)
          (invalid_timeout spec.timeout_ms t.limits.max_timeout_ms) _ h4 in
      ground (arith, within)

  -- Where each round sleeps ten milliseconds or more, a run ends within one round more than a tenth
  -- of the largest timeout that the worker allows, whatever the child does: with a result, whose
  -- output is no longer than the request allows, or with an error.
  pub run_terminates :
      (t : BoundedTerminal) (spec : TerminalSpec) (cancelled_before : Bool)
      (spawned : Result TerminalError Child) (fuel : ℕ)
      → ((child : Child) → spawned ≡ ok child → Sleeps child)
      → t.limits.max_timeout_ms ≤ 10 * fuel
      → IsEnded spec.max_output_bytes (run platform t spec cancelled_before spawned (suc fuel))
  unfolding run
  run_terminates t spec c spawned fuel sleeps enough =
      elim (Result-cases (prepare platform t spec)) [
        | inr (x, p) ↦ rw (p, run) (IsEnded-badly spec.max_output_bytes none x)
        | inl (line, p) ↦ elim (Bool-cases c) [
          | inl q ↦ rw (p, q, run) (IsEnded-badly spec.max_output_bytes none cancelled)
          | inr q ↦ elim (Result-cases spawned) [
            | inr (x, r) ↦ rw (p, q, r, run) (IsEnded-badly spec.max_output_bytes none x)
            | inl (child, r) ↦
                rw (p, q, r, run)
                  (run_loop-IsEnded child spec fuel 0 [] (sleeps child r)
                    (omega (arith, enough, prepare-timeout t spec line p)))
          ]
        ]
      ]
