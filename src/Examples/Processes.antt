-- ===== src/Examples/Processes.antt =====
-- Inputs for the theorem on ending processes.
use vor_commander.Base.{ℕ, ◌≡◌, ◌≢◌, ◌⊎◌, [], ◌∷◌, ok, refl}
use vor_commander.Base.Text.{codes}
use vor_commander.Process.Api.{
  ProcessIdentity, ProcessApi, ProcessCriticality, WaitStatus, ProcessTerminateReceipt, kills,
}
use vor_commander.Process.Worker.{
  same_identity, reject_protected_identity, terminate_with_api, termination_exit_code,
}
use vor_commander.Process.Checks.{IsCleared, IsEnded, Cleared, terminate_checked}

abbrev notepad : ProcessIdentity
notepad = record {
  pid = 42;
  executable_name = codes "notepad.exe";
  image_path = codes "C:\\Windows\\notepad.exe";
  created_at_windows_filetime_100ns = 7;
}

-- a system with that one process
abbrev desktop : ProcessApi
desktop = record {
  on_list_processes = λ h. ok [];
  on_open = λ h pid access. ok 1;
  on_wait = λ h handle ms. ok WaitStatus.timeout;
  on_identity = λ h pid handle. ok notepad;
  on_criticality = λ h handle. ok ProcessCriticality.not_critical;
  on_terminate = λ h handle code. ok tt;
}

terminate_checked_example :
    ((handle : ℕ) × (actual : ProcessIdentity) × IsCleared desktop 9 notepad [] handle actual
      × IsEnded desktop 9 notepad [] handle actual (terminate_with_api desktop 9 notepad []))
    ⊎ ((¬ Cleared desktop 9 notepad [])
        × (kills (terminate_with_api desktop 9 notepad []).0 ≡ [])
        × ((receipt : ProcessTerminateReceipt)
            → (terminate_with_api desktop 9 notepad []).1 ≢ ok receipt))
terminate_checked_example = terminate_checked desktop 9 notepad []

-- the process is ended, and since the wait runs out there is no receipt
notepad_ended : kills (terminate_with_api desktop 9 notepad []).0 ≡ (1, termination_exit_code) ∷ []
unfolding terminate_with_api same_identity reject_protected_identity
notepad_ended = refl
