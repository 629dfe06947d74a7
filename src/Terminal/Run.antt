-- ===== src/Terminal/Run.antt =====
-- `BoundedTerminal` of crates/vor-terminal/src/lib.rs: what is checked before a process is started,
-- and the loop that reads its output.
use vor_commander.Base.{
  ℕ, zero, suc, ◌+◌, ◌-◌, ◌^◌, Bool, true, false, not, Option, none, some, List, [], ◌∷◌, ◌++◌,
  ◌||◌, ◌&&◌, leb, ltb, ◌==◌, Result, ok, err, ok_or, reject_if, ◌>>=◌, ◌>>◌, if◌then◌else◌, any,
  length,
}
use vor_commander.Base.Text.{
  Text, byte_len, is_blank, is_empty, contains_char, text_eq, strip_prefix,
}
use vor_commander.Terminal.Types.{
  TerminalLimits, TerminalSpec, TerminalRunResult, BoundedTerminal, TerminalError, Platform,
  invalid_limits, no_allowed_roots, empty_arguments, cwd_outside_allowed_roots, unsupported_cwd,
  cancelled, output_drain_limit_exceeded, interior_nul, invalid_dimensions, io,
  argument_count_exceeded, argument_bytes_exceeded, invalid_timeout, invalid_output_limit, timeout,
  output_limit_exceeded,
}
use vor_commander.Terminal.CommandLine.{argv_to_windows_command_line}

-- `usize` is 64 bits wide.
abbrev pub usize_end : ℕ
usize_end = 2 ^ 64

-- the loop over the arguments of `prepare`
unfoldable pub total_arg_bytes : ℕ → ℕ → List Text → Result TerminalError ℕ
total_arg_bytes limit total [] = ok total
total_arg_bytes limit total (arg ∷ args) = do
  reject_if (contains_char 0 arg) interior_nul
  reject_if (leb usize_end (total + byte_len arg)) (argument_bytes_exceeded (2 ^ 64 - 1) limit)
  total_arg_bytes limit (total + byte_len arg) args

-- `\\?\`
abbrev pub verbatim : Text
verbatim = 92 ∷ 92 ∷ 63 ∷ 92 ∷ []

-- `UNC\` in any case
abbrev pub is_unc : Text → Bool
is_unc [] = false
is_unc (a ∷ []) = false
is_unc (a ∷ (b ∷ [])) = false
is_unc (a ∷ (b ∷ (c ∷ []))) = false
is_unc (a ∷ (b ∷ (c ∷ (d ∷ s)))) =
    (a == 85 || a == 117) && (b == 78 || b == 110) && (c == 67 || c == 99) && d == 92

abbrev pub after_verbatim : Text → Option Text → Result TerminalError Text
after_verbatim path none = ok path
after_verbatim path (some s) = if is_unc s then err unsupported_cwd else ok s

unfoldable pub process_cwd_path : Text → Result TerminalError Text
process_cwd_path path = after_verbatim path (strip_prefix verbatim path)

abbrev pub has_executable : List Text → Bool
has_executable [] = false
has_executable (program ∷ args) = not (is_blank program)

module _ (platform : Platform) where
  -- the loop over the roots of `new`
  unfoldable pub canonical_roots : List Text → List Text → Result TerminalError (List Text)
  canonical_roots found [] = ok found
  canonical_roots found (root ∷ roots) = do
    canonical ← ok_or (platform.canonicalize root) io
    canonical_roots
        (if any (λ existing. text_eq existing canonical) found
          then found
          else found ++ (canonical ∷ []))
        roots

  unfoldable pub new_terminal : List Text → TerminalLimits → Result TerminalError BoundedTerminal
  new_terminal allowed_roots l = do
    reject_if
        (l.max_timeout_ms == 0
          || l.max_output_bytes == 0
          || l.max_argc == 0
          || l.max_arg_bytes == 0
          || l.max_columns == 0
          || l.max_rows == 0)
        invalid_limits
    roots ← canonical_roots [] allowed_roots
    reject_if (is_empty roots) no_allowed_roots
    ok (record { allowed_roots = roots; limits = l })

  unfoldable pub prepare : BoundedTerminal → TerminalSpec → Result TerminalError (Text × Text)
  prepare t spec = do
    reject_if (not (has_executable spec.argv)) empty_arguments
    reject_if (ltb t.limits.max_argc (length spec.argv))
        (argument_count_exceeded (length spec.argv) t.limits.max_argc)
    total ← total_arg_bytes t.limits.max_arg_bytes 0 spec.argv
    reject_if (ltb t.limits.max_arg_bytes total)
        (argument_bytes_exceeded total t.limits.max_arg_bytes)
    reject_if (spec.timeout_ms == 0 || ltb t.limits.max_timeout_ms spec.timeout_ms)
        (invalid_timeout spec.timeout_ms t.limits.max_timeout_ms)
    reject_if (spec.max_output_bytes == 0 || ltb t.limits.max_output_bytes spec.max_output_bytes)
        (invalid_output_limit spec.max_output_bytes t.limits.max_output_bytes)
    reject_if
        (spec.columns == 0
          || spec.rows == 0
          || ltb t.limits.max_columns spec.columns
          || ltb t.limits.max_rows spec.rows)
        invalid_dimensions
    cwd ← ok_or (platform.canonicalize spec.cwd) io
    reject_if (not (any (λ root. platform.starts_with root cwd) t.allowed_roots))
        cwd_outside_allowed_roots
    process_cwd ← process_cwd_path cwd
    line ← argv_to_windows_command_line spec.argv
    ok (line, process_cwd)

-- What a call of the session gives: `terminate` is called with a code and may fail.
pub record Child : Type 0 where
  pub cancelled_at : ℕ → Bool
  pub elapsed_ms : ℕ → ℕ
  pub chunk : ℕ → Result TerminalError (List ℕ)
  pub exit_code : ℕ → Result TerminalError (Option ℕ)
  pub drained : ℕ → Result TerminalError (List ℕ)
  pub terminated : Result TerminalError (Unit {0})

-- What a run ends with: the code that `terminate` was called with, if it was, and the result.
pub record Ended {ℓ} (A : Type ℓ) : Type ℓ where
  pub killed : Option ℕ
  pub result : Result TerminalError A

abbrev pub failed_without_kill {ℓ} : {A : Type ℓ} → TerminalError → Ended A
failed_without_kill e = record { killed = none; result = err e }

-- `session.terminate(code)?; return Err(e)`
abbrev pub kill {ℓ} : {A : Type ℓ} → Child → ℕ → TerminalError → Ended A
kill child code e = record { killed = some code; result = child.terminated >> err e }

abbrev pub then_continue {ℓ κ} : {A : Type ℓ} {B : Type κ} → Ended A → (A → Ended B) → Ended B
then_continue e k = elim e.result [
  | ok a ↦ k a
  | err x ↦ record { killed = e.killed; result = err x }
]

unfoldable pub append_output : Child → ℕ → List ℕ → List ℕ → Ended (List ℕ)
append_output child limit output new_bytes =
    if leb usize_end (length output + length new_bytes)
    then failed_without_kill (output_limit_exceeded limit)
    else if ltb limit (length output + length new_bytes)
    then kill child 0x000000EA (output_limit_exceeded limit)
    else record { killed = none; result = ok (output ++ new_bytes) }

-- `drain_output`, with the rounds that are left, the place among the reads and the empty ones seen
unfoldable pub drain_output : Child → ℕ → ℕ → ℕ → ℕ → List ℕ → Ended (List ℕ)
drain_output child limit zero i empty_reads output = failed_without_kill output_drain_limit_exceeded
drain_output child limit (suc rounds) i empty_reads output = elim (child.drained i) [
  | err e ↦ failed_without_kill e
  | ok new_bytes ↦ elim (is_empty new_bytes) [
    | true ↦ elim (leb 5 (empty_reads + 1)) [
      | true ↦ record { killed = none; result = ok output }
      | false ↦ drain_output child limit rounds (i + 1) (empty_reads + 1) output
    ]
    | false ↦
        then_continue (append_output child limit output new_bytes)
          (λ longer. drain_output child limit rounds (i + 1) 0 longer)
  ]
]

abbrev pub finish_run : Child → ℕ → ℕ → List ℕ → Ended TerminalRunResult
finish_run child limit code output =
    then_continue (drain_output child limit 256 0 0 output) (λ all_output. record {
      killed = none;
      result = ok (record { exit_code = code; output = all_output });
    })

-- The loop of `run`, at its i-th round; `none` means that the fuel ran out.
unfoldable pub run_loop : Child → TerminalSpec → ℕ → ℕ → List ℕ → Option (Ended TerminalRunResult)
run_loop child spec zero i output = none
run_loop child spec (suc fuel) i output = elim (child.cancelled_at i) [
  | true ↦ some (kill child 0xC000013A cancelled)
  | false ↦ elim (leb spec.timeout_ms (child.elapsed_ms i)) [
    | true ↦ some (kill child 0x000005B4 (timeout spec.timeout_ms))
    | false ↦ elim (child.chunk i) [
      | err e ↦ some (failed_without_kill e)
      | ok new_bytes ↦
          let appended = append_output child spec.max_output_bytes output new_bytes in
          elim appended.result [
            | err e ↦ some (record { killed = appended.killed; result = err e })
            | ok longer ↦ elim (child.exit_code i) [
              | err e ↦ some (failed_without_kill e)
              | ok (some code) ↦ some (finish_run child spec.max_output_bytes code longer)
              | ok none ↦ run_loop child spec fuel (i + 1) longer
            ]
          ]
    ]
  ]
]

module _ (platform : Platform) where
  -- `run` on Windows: whether it was cancelled before it started, and the child that is spawned
  unfoldable pub run :
      BoundedTerminal
      → TerminalSpec
      → Bool
      → Result TerminalError Child
      → ℕ
      → Option (Ended TerminalRunResult)
  run t spec cancelled_before spawned fuel = elim (prepare platform t spec) [
    | err e ↦ some (failed_without_kill e)
    | ok (line, cwd) ↦ elim cancelled_before [
      | true ↦ some (failed_without_kill cancelled)
      | false ↦ elim spawned [
        | err e ↦ some (failed_without_kill e)
        | ok child ↦ run_loop child spec fuel 0 []
      ]
    ]
  ]
