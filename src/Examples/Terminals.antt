-- ===== src/Examples/Terminals.antt =====
-- Inputs for the theorems on terminals.
use vor_commander.Base.{
  suc, ◌*◌, ◌≡◌, subst, refl, true, false, none, some, List, [], ◌∷◌, ◌++◌, Result, ok, err, arith,
  inr,
}
use vor_commander.Base.Text.{Text, codes, text_eq, join, is_whitespace}
use vor_commander.Base.Map.{get}
use vor_commander.Terminal.Types.{
  TerminalSpec, BoundedTerminal, TerminalError, Platform, TerminalSessionOwner,
  ManagedTerminalSession, ManagedTerminalState, TerminalSessionManager, session_owner_mismatch,
}
use vor_commander.Terminal.CommandLine.{
  argv_to_windows_command_line, encode_args, quote_windows_arg, quote_chars,
}
use vor_commander.Terminal.Reading.{between, read_args, read-command_line}
use vor_commander.Terminal.Run.{Child, run}
use vor_commander.Terminal.Termination.{IsEnded, Sleeps, run_terminates}
use vor_commander.Terminal.Sessions.{same_owner, poll}
use vor_commander.Terminal.Isolation.{
  Call, start_call, cancel_call, remove_call, run_calls, sessions_isolated,
}

abbrev arguments : List Text
arguments = codes "a b\\" ∷ codes "say \"hi\"" ∷ [] ∷ codes "c:\\x" ∷ []

abbrev line : Text
line = codes "cmd.exe \"a b\\\\\" \"say \\\"hi\\\"\" \"\" c:\\x"

line_encoded : argv_to_windows_command_line (codes "cmd.exe" ∷ arguments) ≡ ok line
unfolding argv_to_windows_command_line encode_args join quote_windows_arg is_whitespace quote_chars
line_encoded = refl

read-command_line_example :
    (rest : Text) × (line ≡ quote_windows_arg (codes "cmd.exe") ++ rest)
    × (read_args between 0 rest ≡ arguments)
read-command_line_example = read-command_line (codes "cmd.exe") line arguments line_encoded

abbrev disk : Platform
disk = record { canonicalize = λ p. some p; starts_with = text_eq }

abbrev terminal : BoundedTerminal
terminal = record {
  allowed_roots = codes "c:" ∷ [];
  limits = record {
    max_timeout_ms = 30;
    max_output_bytes = 4;
    max_argc = 8;
    max_arg_bytes = 64;
    max_columns = 80;
    max_rows = 25;
  };
}

abbrev spec : TerminalSpec
spec = record {
  argv = codes "cmd.exe" ∷ [];
  environment = [];
  cwd = codes "c:";
  timeout_ms = 20;
  max_output_bytes = 3;
  columns = 80;
  rows = 25;
}

-- a child that writes a byte in each round and never exits
abbrev busy : Child
busy = record {
  cancelled_at = λ i. false;
  elapsed_ms = λ i. 10 * i;
  chunk = λ i. ok (i ∷ []);
  exit_code = λ i. ok none;
  drained = λ i. ok [];
  terminated = ok tt;
}

busy-Sleeps : Sleeps busy
busy-Sleeps i = omega arith

sleeps : (child : Child) → ◌≡◌ {A = Result TerminalError Child} (ok busy) (ok child) → Sleeps child
sleeps child e = subst Sleeps {x = busy} {y = child} (cc) busy-Sleeps

run_terminates_example : IsEnded 3 (run disk terminal spec false (ok busy) (suc 3))
run_terminates_example = run_terminates disk terminal spec false (ok busy) 3 sleeps (omega arith)

abbrev ada : TerminalSessionOwner
ada = record { organization_id = "o"; actor_id = "ada"; device_id = "d"; workspace_id = none }

abbrev bob : TerminalSessionOwner
bob = record ada { actor_id = "bob" }

abbrev of_ada : ManagedTerminalSession
of_ada = record { owner = ada; cancellation = false; state = ManagedTerminalState.running }

abbrev manager : TerminalSessionManager
manager = record { terminal = terminal; sessions = ("s1", of_ada) ∷ []; max_sessions = 2 }

abbrev by_bob : List Call
by_bob =
    start_call bob spec ("s1" ∷ "s2" ∷ []) true
    ∷ cancel_call "s1" bob
    ∷ remove_call "s1" bob
    ∷ cancel_call "s2" bob
    ∷ []

bob_is_other : same_owner ada bob ≡ false
unfolding same_owner
bob_is_other = refl

sessions_isolated_example :
    (get "s1" (run_calls disk by_bob manager).sessions ≡ some of_ada)
    × (poll "s1" ada (run_calls disk by_bob manager) ≡ poll "s1" ada manager)
    × ((o : TerminalSessionOwner)
        → same_owner ada o ≡ false
        → poll "s1" o (run_calls disk by_bob manager) ≡ err session_owner_mismatch)
unfolding get
sessions_isolated_example =
    sessions_isolated disk "s1" of_ada manager by_bob refl
      (tt, (inr bob_is_other, (inr bob_is_other, (inr bob_is_other, tt))))
