-- ===== src/Terminal/Sessions.antt =====
-- `TerminalSessionManager` of crates/vor-terminal/src/lib.rs. The random ids that `start` tries are
-- an argument; the thread that runs a session reports by `finish`.
use vor_commander.Base.{
  ℕ, String, Bool, true, false, not, Option, none, some, List, [], ◌∷◌, ◌&&◌, ◌||◌, ◌==◌, str_eq,
  leb, Result, ok, err, reject_if, ◌>>=◌, ◌>>◌, if◌then◌else◌, length,
}
use vor_commander.Base.Text.{codes, is_blank, is_some}
use vor_commander.Base.Map.{Map, get, insert, remove}
use vor_commander.Terminal.Types.{
  TerminalSpec, TerminalRunResult, BoundedTerminal, TerminalError, Platform, TerminalSessionOwner,
  TerminalSessionState, TerminalSessionSnapshot, TerminalSessionFailure, ManagedTerminalState,
  ManagedTerminalSession, TerminalSessionManager, timeout, output_limit_exceeded,
  invalid_session_owner, invalid_session_limit, session_id_exhausted, session_not_found,
  session_owner_mismatch, session_still_running, session_limit_exceeded, io,
}
use vor_commander.Terminal.Run.{prepare}

abbrev pub is_blank_id : Option String → Bool
is_blank_id none = false
is_blank_id (some s) = is_blank (codes s)

-- the checks of `with_workspace`, which `start` repeats
unfoldable pub valid_owner : TerminalSessionOwner → Bool
valid_owner o = not (
    is_blank (codes o.organization_id)
    || is_blank (codes o.actor_id)
    || is_blank (codes o.device_id)
    || is_blank_id o.workspace_id)

unfoldable pub with_workspace :
    String → String → String → Option String → Result TerminalError TerminalSessionOwner
with_workspace organization_id actor_id device_id workspace_id =
    let o : TerminalSessionOwner = record {
      organization_id = organization_id;
      actor_id = actor_id;
      device_id = device_id;
      workspace_id = workspace_id;
    } in
    if valid_owner o then ok o else err invalid_session_owner

unfoldable pub from_error : TerminalError → TerminalSessionFailure
from_error TerminalError.cancelled = record {
  state = TerminalSessionState.cancelled;
  error_code = "terminal_cancelled";
}
from_error (timeout ms) = record {
  state = TerminalSessionState.timed_out;
  error_code = "terminal_timeout";
}
from_error (output_limit_exceeded limit) = record {
  state = TerminalSessionState.failed;
  error_code = "terminal_output_limit_exceeded";
}
from_error e = record { state = TerminalSessionState.failed; error_code = "terminal_error" }

unfoldable pub new_manager : BoundedTerminal → ℕ → Result TerminalError TerminalSessionManager
new_manager terminal max_sessions = do
  reject_if (max_sessions == 0) invalid_session_limit
  ok (record { terminal = terminal; sessions = []; max_sessions = max_sessions })

abbrev pub same_workspace : Option String → Option String → Bool
same_workspace none none = true
same_workspace none (some b) = false
same_workspace (some a) none = false
same_workspace (some a) (some b) = str_eq a b

-- `==` of owners
unfoldable pub same_owner : TerminalSessionOwner → TerminalSessionOwner → Bool
same_owner a b =
    str_eq a.organization_id b.organization_id
    && str_eq a.actor_id b.actor_id
    && str_eq a.device_id b.device_id
    && same_workspace a.workspace_id b.workspace_id

-- the first of the ids tried that no session has
unfoldable pub first_free : Map ManagedTerminalSession → List String → Option String
first_free sessions [] = none
first_free sessions (candidate ∷ more) =
    if is_some (get candidate sessions) then first_free sessions more else some candidate

abbrev pub session_for :
    TerminalSessionOwner
    → Option ManagedTerminalSession
    → Result TerminalError ManagedTerminalSession
session_for owner none = err session_not_found
session_for owner (some managed) =
    if same_owner managed.owner owner then ok managed else err session_owner_mismatch

unfoldable pub session :
    String
    → TerminalSessionOwner
    → TerminalSessionManager
    → Result TerminalError ManagedTerminalSession
session session_id owner m = session_for owner (get session_id m.sessions)

unfoldable pub session_snapshot : String → ManagedTerminalState → TerminalSessionSnapshot
session_snapshot session_id ManagedTerminalState.running = record {
  session_id = session_id;
  state = TerminalSessionState.running;
  exit_code = none;
  output = [];
  error_code = none;
}
session_snapshot session_id (ManagedTerminalState.finished (ok r)) = record {
  session_id = session_id;
  state = TerminalSessionState.completed;
  exit_code = some r.exit_code;
  output = r.output;
  error_code = none;
}
session_snapshot session_id (ManagedTerminalState.finished (err failure)) = record {
  session_id = session_id;
  state = failure.state;
  exit_code = none;
  output = [];
  error_code = some failure.error_code;
}

-- the session is entered, and taken out again where its thread cannot be spawned
abbrev pub enter :
    TerminalSessionOwner
    → Bool
    → TerminalSessionManager
    → Option String
    → TerminalSessionManager × Result TerminalError String
enter owner spawned m none = (m, err session_id_exhausted)
enter owner spawned m (some session_id) =
    let s : ManagedTerminalSession = record {
      owner = owner;
      cancellation = false;
      state = ManagedTerminalState.running;
    } in
    let entered = insert session_id s m.sessions in
    if spawned
    then (record m { sessions = entered }, ok session_id)
    else (record m { sessions = remove session_id entered }, err io)

abbrev pub start_prepared {ℓ} :
    {A : Type ℓ}
    → TerminalSessionOwner
    → List String
    → Bool
    → TerminalSessionManager
    → Result TerminalError A
    → TerminalSessionManager × Result TerminalError String
start_prepared owner candidates spawned m (err e) = (m, err e)
start_prepared owner candidates spawned m (ok prepared) =
    if leb m.max_sessions (length m.sessions)
    then (m, err (session_limit_exceeded m.max_sessions))
    else enter owner spawned m (first_free m.sessions candidates)

unfoldable pub start :
    Platform
    → TerminalSessionOwner
    → TerminalSpec
    → List String
    → Bool
    → TerminalSessionManager
    → TerminalSessionManager × Result TerminalError String
start platform owner spec candidates spawned m =
    if not (valid_owner owner)
    then (m, err invalid_session_owner)
    else start_prepared owner candidates spawned m (prepare platform m.terminal spec)

abbrev pub finish_found :
    String
    → Result TerminalSessionFailure TerminalRunResult
    → TerminalSessionManager
    → Option ManagedTerminalSession
    → TerminalSessionManager
finish_found session_id outcome m none = m
finish_found session_id outcome m (some s) = record m {
  sessions =
      insert session_id (record s { state = ManagedTerminalState.finished outcome }) m.sessions;
}

-- what the thread of a session does at its end
unfoldable pub finish :
    String
    → Result TerminalSessionFailure TerminalRunResult
    → TerminalSessionManager
    → TerminalSessionManager
finish session_id outcome m = finish_found session_id outcome m (get session_id m.sessions)

unfoldable pub poll :
    String
    → TerminalSessionOwner
    → TerminalSessionManager
    → Result TerminalError TerminalSessionSnapshot
poll session_id owner m = do
  managed ← session session_id owner m
  ok (session_snapshot session_id managed.state)

abbrev pub is_running : ManagedTerminalState → Bool
is_running ManagedTerminalState.running = true
is_running (ManagedTerminalState.finished outcome) = false

abbrev pub cancel_found :
    String
    → TerminalSessionManager
    → Result TerminalError ManagedTerminalSession
    → TerminalSessionManager × Result TerminalError Bool
cancel_found session_id m (err e) = (m, err e)
cancel_found session_id m (ok s) =
    if is_running s.state
    then (
      record m { sessions = insert session_id (record s { cancellation = true }) m.sessions },
      ok true,
    )
    else (m, ok false)

unfoldable pub cancel :
    String
    → TerminalSessionOwner
    → TerminalSessionManager
    → TerminalSessionManager × Result TerminalError Bool
cancel session_id owner m = cancel_found session_id m (session session_id owner m)

abbrev pub remove_found :
    String
    → TerminalSessionManager
    → Result TerminalError ManagedTerminalSession
    → TerminalSessionManager × Result TerminalError TerminalSessionSnapshot
remove_found session_id m (err e) = (m, err e)
remove_found session_id m (ok s) = if is_running s.state then (m, err session_still_running) else (
  record m { sessions = remove session_id m.sessions },
  ok (session_snapshot session_id s.state),
)

unfoldable pub remove_session :
    String
    → TerminalSessionOwner
    → TerminalSessionManager
    → TerminalSessionManager × Result TerminalError TerminalSessionSnapshot
remove_session session_id owner m = remove_found session_id m (session session_id owner m)

unfoldable pub session_count : TerminalSessionManager → ℕ
session_count m = length m.sessions
