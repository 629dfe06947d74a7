-- ===== src/Terminal/Isolation.antt =====
-- What the owners of terminal sessions can do to each other: crates/vor-terminal/src/lib.rs.
use vor_commander.Base.{
  String, ◌≡◌, ◌⊎◌, ap, ◌∙◌, Bool, false, some, List, [], ◌∷◌, str_eq, eq_iff, leb, Result, err,
  arith, inl, inr, Bool-cases, Option-cases, Result-cases, All, length,
}
use vor_commander.Base.Text.{is_some}
use vor_commander.Base.Map.{get, insert, remove, get-insert, get-remove}
use vor_commander.Terminal.Types.{
  TerminalSpec, TerminalRunResult, Platform, TerminalSessionOwner, TerminalSessionFailure,
  ManagedTerminalSession, TerminalSessionManager, session_owner_mismatch,
}
use vor_commander.Terminal.Run.{prepare}
use vor_commander.Terminal.Sessions.{
  same_owner, valid_owner, first_free, session, session_for, enter, start, finish, poll, cancel,
  remove_session, is_running,
}

-- a call of the manager, or the end of the thread that runs a session
pub data Call : Type 0 where
  start_call : TerminalSessionOwner → TerminalSpec → List String → Bool → Call
  poll_call cancel_call remove_call : String → TerminalSessionOwner → Call
  thread_ends : String → Result TerminalSessionFailure TerminalRunResult → Call

unfoldable pub run_call : Platform → Call → TerminalSessionManager → TerminalSessionManager
run_call platform (start_call owner spec candidates spawned) m =
    (start platform owner spec candidates spawned m).0
run_call platform (poll_call session_id owner) m = m
run_call platform (cancel_call session_id owner) m = (cancel session_id owner m).0
run_call platform (remove_call session_id owner) m = (remove_session session_id owner m).0
run_call platform (thread_ends session_id outcome) m = finish session_id outcome m

unfoldable pub run_calls : Platform → List Call → TerminalSessionManager → TerminalSessionManager
run_calls platform [] m = m
run_calls platform (c ∷ cs) m = run_calls platform cs (run_call platform c m)

-- A call that is not one of `owner` for the session, nor the end of that session's thread.
abbrev pub IsForeign : String → TerminalSessionOwner → Call → Type 0
IsForeign session_id owner (start_call o spec candidates spawned) = Unit {0}
IsForeign session_id owner (poll_call i o) = Unit {0}
IsForeign session_id owner (cancel_call i o) =
    (str_eq i session_id ≡ false) ⊎ (same_owner owner o ≡ false)
IsForeign session_id owner (remove_call i o) =
    (str_eq i session_id ≡ false) ⊎ (same_owner owner o ≡ false)
IsForeign session_id owner (thread_ends i outcome) = str_eq i session_id ≡ false

module _ (session_id : String) (s : ManagedTerminalSession) where
  abbrev Keeps : TerminalSessionManager → Type 0
  Keeps m = get session_id m.sessions ≡ some s

  insert-Keeps :
      (k : String) (t : ManagedTerminalSession) (m : TerminalSessionManager)
      → str_eq k session_id ≡ false
      → Keeps m
      → Keeps (record m { sessions = insert k t m.sessions })
  insert-Keeps k t m ne kept = get-insert k session_id t m.sessions ∙ rw ne kept

  remove-Keeps :
      (k : String) (m : TerminalSessionManager)
      → str_eq k session_id ≡ false
      → Keeps m
      → Keeps (record m { sessions = remove k m.sessions })
  remove-Keeps k m ne kept = get-remove k session_id m.sessions ∙ rw ne kept

  first_free-ne :
      (m : TerminalSessionManager) (candidates : List String) (k : String)
      → Keeps m
      → first_free m.sessions candidates ≡ some k
      → str_eq k session_id ≡ false
  unfolding first_free
  first_free-ne m [] k kept h = cc
  first_free-ne m (c ∷ cs) k kept h = elim (Bool-cases (is_some (get c m.sessions))) [
    | inl e ↦ first_free-ne m cs k kept (rw e at h)
    | inr e ↦ ground (arith, e, kept, eq_iff k session_id, rw e at h)
  ]

  enter-Keeps :
      (owner : TerminalSessionOwner) (spawned : Bool) (m : TerminalSessionManager)
      (candidates : List String)
      → Keeps m
      → Keeps (enter owner spawned m (first_free m.sessions candidates)).0
  enter-Keeps owner spawned m candidates kept =
      elim (Option-cases (first_free m.sessions candidates)) [
        | inl e ↦ rw e kept
        | inr (k, e) ↦
            let ne = first_free-ne m candidates k kept e in
            let entered = insert-Keeps k _ m ne kept in
            elim (Bool-cases spawned) [
              | inl q ↦ rw (e, q) entered
              | inr q ↦
                  rw (e, q)
                    (remove-Keeps k (record m { sessions = insert k _ m.sessions }) ne entered)
            ]
      ]

  start-Keeps :
      (platform : Platform) (owner : TerminalSessionOwner) (spec : TerminalSpec)
      (candidates : List String) (spawned : Bool) (m : TerminalSessionManager)
      → Keeps m
      → Keeps (start platform owner spec candidates spawned m).0
  unfolding start
  start-Keeps platform owner spec candidates spawned m kept =
      elim (Bool-cases (valid_owner owner)) [
        | inr v ↦ rw v kept
        | inl v ↦ elim (Result-cases (prepare platform m.terminal spec)) [
          | inr (x, p) ↦ rw (v, p) kept
          | inl (line, p) ↦ elim (Bool-cases (leb m.max_sessions (length m.sessions))) [
            | inl full ↦ rw (v, p, full) kept
            | inr full ↦ rw (v, p, full) (enter-Keeps owner spawned m candidates kept)
          ]
        ]
      ]

  -- A foreign owner does not get hold of the session.
  session-foreign :
      (i : String) (o : TerminalSessionOwner) (m : TerminalSessionManager)
      → Keeps m
      → (str_eq i session_id ≡ false) ⊎ (same_owner s.owner o ≡ false)
      → (str_eq i session_id ≡ false) ⊎ (session i o m ≡ err session_owner_mismatch)
  unfolding session
  session-foreign i o m kept (inl e) = inl e
  session-foreign i o m kept (inr e) = elim (Bool-cases (str_eq i session_id)) [
    | inr q ↦ inl q
    | inl q ↦ inr (
        ap (λ k. session_for o (get k m.sessions)) ((eq_iff i session_id).0 q)
        ∙ ap (session_for o) kept
        ∙ rw e)
  ]

  cancel-Keeps :
      (i : String) (o : TerminalSessionOwner) (m : TerminalSessionManager)
      → Keeps m
      → (str_eq i session_id ≡ false) ⊎ (same_owner s.owner o ≡ false)
      → Keeps (cancel i o m).0
  unfolding cancel
  cancel-Keeps i o m kept foreign = elim (session-foreign i o m kept foreign) [
    | inr e ↦ rw e kept
    | inl ne ↦ elim (Result-cases (session i o m)) [
      | inr (x, e) ↦ rw e kept
      | inl (t, e) ↦ elim (Bool-cases (is_running t.state)) [
        | inl r ↦ rw (e, r) (insert-Keeps i _ m ne kept)
        | inr r ↦ rw (e, r) kept
      ]
    ]
  ]

  remove_session-Keeps :
      (i : String) (o : TerminalSessionOwner) (m : TerminalSessionManager)
      → Keeps m
      → (str_eq i session_id ≡ false) ⊎ (same_owner s.owner o ≡ false)
      → Keeps (remove_session i o m).0
  unfolding remove_session
  remove_session-Keeps i o m kept foreign = elim (session-foreign i o m kept foreign) [
    | inr e ↦ rw e kept
    | inl ne ↦ elim (Result-cases (session i o m)) [
      | inr (x, e) ↦ rw e kept
      | inl (t, e) ↦ elim (Bool-cases (is_running t.state)) [
        | inl r ↦ rw (e, r) kept
        | inr r ↦ rw (e, r) (remove-Keeps i m ne kept)
      ]
    ]
  ]

  finish-Keeps :
      (i : String) (outcome : Result TerminalSessionFailure TerminalRunResult)
      (m : TerminalSessionManager)
      → Keeps m
      → str_eq i session_id ≡ false
      → Keeps (finish i outcome m)
  unfolding finish
  finish-Keeps i outcome m kept ne = elim (Option-cases (get i m.sessions)) [
    | inl e ↦ rw e kept
    | inr (t, e) ↦ rw e (insert-Keeps i _ m ne kept)
  ]

  call-Keeps :
      (platform : Platform) (c : Call) (m : TerminalSessionManager)
      → IsForeign session_id s.owner c
      → Keeps m
      → Keeps (run_call platform c m)
  unfolding run_call
  call-Keeps platform (start_call o spec candidates spawned) m foreign kept =
      start-Keeps platform o spec candidates spawned m kept
  call-Keeps platform (poll_call i o) m foreign kept = kept
  call-Keeps platform (cancel_call i o) m foreign kept = cancel-Keeps i o m kept foreign
  call-Keeps platform (remove_call i o) m foreign kept = remove_session-Keeps i o m kept foreign
  call-Keeps platform (thread_ends i outcome) m foreign kept = finish-Keeps i outcome m kept foreign

  calls-Keeps :
      (platform : Platform) (cs : List Call) (m : TerminalSessionManager)
      → All (IsForeign session_id s.owner) cs
      → Keeps m
      → Keeps (run_calls platform cs m)
  unfolding run_calls
  calls-Keeps platform [] m foreign kept = kept
  calls-Keeps platform (c ∷ cs) m foreign kept =
      calls-Keeps platform cs (run_call platform c m) foreign.1
        (call-Keeps platform c m foreign.0 kept)

-- A session is out of reach of other owners. Whatever calls are made, short of the owner's own calls
-- for the session and the end of its thread, the session stays as it was: the owner polls what it
-- would have polled before, and any other owner is refused.
pub sessions_isolated :
    (platform : Platform) (session_id : String) (s : ManagedTerminalSession)
    (m : TerminalSessionManager) (cs : List Call)
    → get session_id m.sessions ≡ some s
    → All (IsForeign session_id s.owner) cs
    → (get session_id (run_calls platform cs m).sessions ≡ some s)
      × (poll session_id s.owner (run_calls platform cs m) ≡ poll session_id s.owner m)
      × ((o : TerminalSessionOwner)
          → same_owner s.owner o ≡ false
          → poll session_id o (run_calls platform cs m) ≡ err session_owner_mismatch)
unfolding poll session
sessions_isolated platform session_id s m cs held foreign =
    let kept = calls-Keeps session_id s platform cs m foreign held in
    (kept, rw (kept, held), λ o ne. rw (kept, ne))
