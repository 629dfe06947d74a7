-- ===== src/Process/Checks.antt =====
-- What `terminate_with_api` of crates/vor-process/src/lib.rs has checked before it ends a process.
use vor_commander.Base.{
  ℕ, ◌≡◌, length, List, sym, subst, ◌≢◌, ◌⊎◌, ap, ◌∙◌, refl, Bool, true, false, not, ◌∷◌, ◌==◌,
  Result, ok, err, arith, inl, inr,
}
use vor_commander.Process.Api.{
  ProcessIdentity, ProcessTerminateReceipt, ProcessError, ProcessAccess, WaitStatus,
  ProcessCriticality, Call, critical_process, identity_mismatch, protected_process, History,
  ProcessApi, M, ◌>>=◌, ◌>>◌, continue_with, done, refuse, kills,
}
use vor_commander.Process.Worker.{
  same_identity, reject_protected_identity, terminate_with_api, terminate_wait_ms,
  termination_exit_code, receipt_for, running_status, is_critical, call_wait, call_open,
  call_identity, call_criticality, ensure_still_running, kill_and_wait, end_uncritical,
  end_unprotected, end_identified, end_running, end_opened,
}

longer : (k : ℕ × ℕ) (ks : List (ℕ × ℕ)) → ks ≢ k ∷ ks
longer k ks e = omega (arith, ap length e)

module _ (api : ProcessApi) (own_pid : ℕ) (expected : ProcessIdentity) (h : History) where
  abbrev opened_at : History
  opened_at = Call.open_process expected.pid ProcessAccess.terminate ∷ h

  abbrev waited_at : ℕ → History
  waited_at handle = Call.wait handle 0 ∷ opened_at

  abbrev read_at : ℕ → History
  read_at handle = Call.identity expected.pid handle ∷ waited_at handle

  -- Each check passed, on one handle and in this order: the target is not the worker itself, it runs,
  -- it is who it was approved to be, it is not protected and not critical.
  pub record IsCleared (handle : ℕ) (actual : ProcessIdentity) : Type 0 where
    pub other : (expected.pid == own_pid) ≡ false
    pub opened : api.on_open h expected.pid ProcessAccess.terminate ≡ ok handle
    pub alive : api.on_wait opened_at handle 0 ≡ ok WaitStatus.timeout
    pub found : api.on_identity (waited_at handle) expected.pid handle ≡ ok actual
    pub same : same_identity actual expected ≡ true
    pub unprotected : reject_protected_identity actual ≡ ok tt
    pub harmless : api.on_criticality (read_at handle) handle ≡ ok ProcessCriticality.not_critical

  abbrev pub Cleared : Type 0
  Cleared = (handle : ℕ) × (actual : ProcessIdentity) × IsCleared handle actual

  abbrev Answer : Type 0
  Answer = History × Result ProcessError ProcessTerminateReceipt

  abbrev Untouched : Answer → Type 0
  Untouched x = (kills x.0 ≡ kills h) × ((receipt : ProcessTerminateReceipt) → x.1 ≢ ok receipt)

  abbrev Outcome : Answer → Type 0
  Outcome x = Cleared ⊎ Untouched x

  untouched : (after : History) (e : ProcessError) → kills after ≡ kills h → Outcome (after, err e)
  untouched after e same = inr (same, λ receipt k. ground (arith, k))

  refuse-Outcome :
      (b : Bool) (e : ProcessError) (k : M ProcessTerminateReceipt) (at : History)
      → kills at ≡ kills h
      → (b ≡ false → Outcome (k at))
      → Outcome ((refuse b e >> k) at)
  refuse-Outcome true e k at same more = untouched at e same
  refuse-Outcome false e k at same more = more refl

  answer-Outcome :
      {A : Type 0} (r : Result ProcessError A) (f : A → M ProcessTerminateReceipt) (at : History)
      → kills at ≡ kills h
      → ((a : A) → r ≡ ok a → Outcome (f a at))
      → Outcome (continue_with f (at, r))
  answer-Outcome (ok a) f at same more = more a refl
  answer-Outcome (err e) f at same more = untouched at e same

  alive-Outcome :
      (pid : ℕ) (r : Result ProcessError WaitStatus) (k : M ProcessTerminateReceipt) (at : History)
      → kills at ≡ kills h
      → (r ≡ ok WaitStatus.timeout → Outcome (k at))
      → Outcome (
          continue_with
            (λ _. k)
            (continue_with (λ status. done (running_status pid status)) (at, r)))
  alive-Outcome pid (err e) k at same more = untouched at e same
  alive-Outcome pid (ok WaitStatus.object0) k at same more = untouched at _ same
  alive-Outcome pid (ok WaitStatus.timeout) k at same more = more refl
  alive-Outcome pid (ok (WaitStatus.failed code)) k at same more = untouched at _ same
  alive-Outcome pid (ok (WaitStatus.unexpected status)) k at same more = untouched at _ same

  harmless-Outcome :
      (c : ProcessCriticality) (e : ProcessError) (k : M ProcessTerminateReceipt) (at : History)
      → kills at ≡ kills h
      → (c ≡ ProcessCriticality.not_critical → Outcome (k at))
      → Outcome ((refuse (is_critical c) e >> k) at)
  harmless-Outcome ProcessCriticality.critical e k at same more = untouched at e same
  harmless-Outcome ProcessCriticality.not_critical e k at same more = more refl

  unprotected-Outcome :
      (handle : ℕ) (actual : ProcessIdentity)
      → ((harmless : api.on_criticality (read_at handle) handle
            ≡ ok ProcessCriticality.not_critical)
          → reject_protected_identity actual ≡ ok tt
          → Cleared)
      → Outcome (end_unprotected api handle actual (read_at handle))
  unprotected-Outcome handle actual cleared =
      answer-Outcome (reject_protected_identity actual)
        (λ _. call_criticality api handle >>= end_uncritical api handle actual) (read_at handle)
        refl
        (λ u unprotected.
          answer-Outcome (api.on_criticality (read_at handle) handle)
            (end_uncritical api handle actual) (Call.criticality handle ∷ read_at handle) refl
            (λ c harmless.
              harmless-Outcome c (critical_process actual.pid) (kill_and_wait api handle actual)
                (Call.criticality handle ∷ read_at handle) refl
                (λ fine. inl (cleared (cc (harmless, fine)) unprotected))))

  running-Outcome :
      (handle : ℕ)
      → ((actual : ProcessIdentity)
          → api.on_identity (waited_at handle) expected.pid handle ≡ ok actual
          → same_identity actual expected ≡ true
          → api.on_criticality (read_at handle) handle ≡ ok ProcessCriticality.not_critical
          → reject_protected_identity actual ≡ ok tt
          → Cleared)
      → Outcome (end_running api expected handle (waited_at handle))
  running-Outcome handle cleared =
      answer-Outcome (api.on_identity (waited_at handle) expected.pid handle)
        (end_identified api expected handle) (read_at handle) refl
        (λ actual found.
          refuse-Outcome (not (same_identity actual expected)) (identity_mismatch expected actual)
            (end_unprotected api handle actual) (read_at handle) refl
            (λ same.
              unprotected-Outcome handle actual (cleared actual found (ground (arith, same)))))

  terminate-Outcome : Outcome (terminate_with_api api own_pid expected h)
  unfolding terminate_with_api
  terminate-Outcome =
      refuse-Outcome (expected.pid == own_pid) (protected_process "current_process")
        (call_open api expected.pid ProcessAccess.terminate >>= end_opened api expected) h refl
        (λ other.
          answer-Outcome (api.on_open h expected.pid ProcessAccess.terminate)
            (end_opened api expected) opened_at refl
            (λ handle opened.
              alive-Outcome expected.pid (api.on_wait opened_at handle 0)
                (end_running api expected handle) (waited_at handle) refl
                (λ alive. running-Outcome handle (λ actual found same harmless unprotected. (
                  handle,
                  actual,
                  record {
                    other = other;
                    opened = opened;
                    alive = alive;
                    found = found;
                    same = same;
                    unprotected = unprotected;
                    harmless = harmless;
                  },
                )))))

  bind_ok :
      {A B : Type 0} (m : M A) (f : A → M B) (before after : History) (a : A)
      → m before ≡ (after, ok a)
      → (m >>= f) before ≡ f a after
  bind_ok m f before after a e = ap (continue_with f) e

  -- With every check passed, the run comes down to its last part.
  cleared_run :
      (handle : ℕ) (actual : ProcessIdentity)
      → IsCleared handle actual
      → terminate_with_api api own_pid expected h
        ≡ kill_and_wait api handle actual (Call.criticality handle ∷ read_at handle)
  unfolding terminate_with_api
  cleared_run handle actual c =
      bind_ok (refuse (expected.pid == own_pid) (protected_process "current_process"))
        (λ _. call_open api expected.pid ProcessAccess.terminate >>= end_opened api expected) h h tt
        (rw c.other)
      ∙ bind_ok (call_open api expected.pid ProcessAccess.terminate) (end_opened api expected) h
          opened_at handle (ap (λ r. (opened_at, r)) c.opened)
      ∙ bind_ok (ensure_still_running api expected.pid handle)
          (λ _. end_running api expected handle) opened_at (waited_at handle) tt (rw c.alive)
      ∙ bind_ok (call_identity api expected.pid handle) (end_identified api expected handle)
          (waited_at handle) (read_at handle) actual (ap (λ r. (read_at handle, r)) c.found)
      ∙ bind_ok (refuse (not (same_identity actual expected)) (identity_mismatch expected actual))
          (λ _. end_unprotected api handle actual) (read_at handle) (read_at handle) tt (rw c.same)
      ∙ bind_ok (done (reject_protected_identity actual))
          (λ _. call_criticality api handle >>= end_uncritical api handle actual) (read_at handle)
          (read_at handle) tt (ap (λ r. (read_at handle, r)) c.unprotected)
      ∙ ap
          (λ r.
            continue_with (end_uncritical api handle actual)
              (Call.criticality handle ∷ read_at handle, r))
          c.harmless

  -- the calls before `terminate`
  abbrev checked_at : ℕ → History
  checked_at handle = Call.criticality handle ∷ read_at handle

  -- `terminate` is called once, on the handle that was checked. Either the wait on that handle then
  -- says that the process has ended, and the answer is a receipt for the process that was found, or
  -- there is no receipt.
  abbrev pub IsEnded : ℕ → ProcessIdentity → Answer → Type 0
  IsEnded handle actual x =
      (kills x.0 ≡ (handle, termination_exit_code) ∷ kills h)
      × (((x.1 ≡ receipt_for actual WaitStatus.object0)
            × (api.on_wait (Call.terminate handle termination_exit_code ∷ checked_at handle) handle
                  terminate_wait_ms
                ≡ ok WaitStatus.object0))
          ⊎ ((receipt : ProcessTerminateReceipt) → x.1 ≢ ok receipt))

  waited-IsEnded :
      (handle : ℕ) (actual : ProcessIdentity) (r : Result ProcessError WaitStatus)
      → api.on_wait
          (Call.terminate handle termination_exit_code ∷ checked_at handle)
          handle
          terminate_wait_ms
        ≡ r
      → IsEnded handle actual (
          continue_with
            (λ status. done (receipt_for actual status))
            (
              Call.wait handle terminate_wait_ms
                  ∷ (Call.terminate handle termination_exit_code ∷ checked_at handle),
              r,
            ))
  waited-IsEnded handle actual (err x) w = (refl, inr (λ receipt e. cc))
  waited-IsEnded handle actual (ok WaitStatus.object0) w = (refl, inl (refl, w))
  waited-IsEnded handle actual (ok WaitStatus.timeout) w = (refl, inr (λ receipt e. cc))
  waited-IsEnded handle actual (ok (WaitStatus.failed code)) w = (refl, inr (λ receipt e. cc))
  waited-IsEnded handle actual (ok (WaitStatus.unexpected status)) w = (refl, inr (λ receipt e. cc))

  killed-IsEnded :
      (handle : ℕ) (actual : ProcessIdentity) (r : Result ProcessError (Unit {0}))
      → IsEnded handle actual (
          continue_with
            (λ _.
              call_wait api handle terminate_wait_ms >>= λ status. done (receipt_for actual status))
            (Call.terminate handle termination_exit_code ∷ checked_at handle, r))
  killed-IsEnded handle actual (err x) = (refl, inr (λ receipt e. cc))
  killed-IsEnded handle actual (ok u) = waited-IsEnded handle actual _ refl

  cleared-IsEnded :
      (handle : ℕ) (actual : ProcessIdentity)
      → IsCleared handle actual
      → IsEnded handle actual (terminate_with_api api own_pid expected h)
  cleared-IsEnded handle actual c =
      subst (IsEnded handle actual) (sym (cleared_run handle actual c)) (
        killed-IsEnded handle actual
          (api.on_terminate (checked_at handle) handle termination_exit_code))

  -- Where every check has passed on one handle, in the order of the code and with no other call
  -- between - the target is not the worker, it runs, it has the approved name, path and creation
  -- time, it is not protected and not critical -, `terminate_with_api` calls `terminate` once and on
  -- this handle; then it gives a receipt for the process that was found, and the wait on this handle
  -- says that it has ended, or it gives none. Else it calls `terminate` not at all and gives no
  -- receipt.
  pub terminate_checked :
      ((handle : ℕ) × (actual : ProcessIdentity) × IsCleared handle actual
        × IsEnded handle actual (terminate_with_api api own_pid expected h))
      ⊎ ((¬ Cleared)
          × (kills (terminate_with_api api own_pid expected h).0 ≡ kills h)
          × ((receipt : ProcessTerminateReceipt)
              → (terminate_with_api api own_pid expected h).1 ≢ ok receipt))
  terminate_checked = elim terminate-Outcome [
    | inl (handle, actual, c) ↦ inl (handle, actual, c, cleared-IsEnded handle actual c)
    | inr (same, refused) ↦ inr (
      (λ (handle, actual, c). longer _ _ (sym same ∙ (cleared-IsEnded handle actual c).0)),
      same,
      refused,
    )
  ]
