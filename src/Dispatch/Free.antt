-- ===== src/Dispatch/Free.antt =====
-- Computations of crates/vor-dispatch/src/lib.rs that keep the effects safe: how they are composed,
-- and the checks and writes that every handler makes.
use vor_commander.Base.{if◌then◌else◌, ℕ, String, Bool, true, false, not, none, Result, str_eq}
use vor_commander.Protocol.{ActionRequest}
use vor_commander.Wire.{ms_to_timestamp}
use vor_commander.Audit.Store.{Fault}
use vor_commander.Core.{Outside, Authorization}
use vor_commander.Dispatch.State.{
  DispatchError, Dispatcher, ActionResult, Output, Workers, M, ◌>>=◌, ◌>>◌, return, fail, refuse,
  remote_approved_action_allowed, wrong_device, remote_action_not_allowed,
  remote_approval_policy_required,
}
use vor_commander.Dispatch.Dispatcher.{
  Faults, as_clock, audit, authorize, check_approved_action, check_device, refuse_audited,
  refuse_unneeded, result_at, result_of, run_authorized,
}
use vor_commander.Dispatch.Hoare.{
  IsOnce, Post, Post-continue, Held-authorize, Held-audit, Held-refuse, Held-return,
}

abbrev pub Fine {ℓ} : {A : Type ℓ} → A → Dispatcher → Type 0
Fine a d = IsOnce d

abbrev pub Free {ℓ} : {A : Type ℓ} → Dispatcher × Result DispatchError A → Type 0
Free x = Post Fine x

-- a computation that keeps the effects safe
abbrev pub IsFree {ℓ} : {A : Type ℓ} → M A → Type 0
IsFree m = (d : Dispatcher) → IsOnce d → Free (m d)

pub seq-IsFree {ℓ κ} :
    {A : Type ℓ} {B : Type κ} (m : M A) (f : A → M B)
    → IsFree m
    → ((a : A) → IsFree (f a))
    → IsFree (m >>= f)
seq-IsFree m f h more d k = Post-continue Fine Fine (m d) f (h d k) more

pub refuse-IsFree {ℓ} :
    {B : Type ℓ} (c : Bool) (e : DispatchError) (k : M B) → IsFree k → IsFree (refuse c e >> k)
refuse-IsFree c e k more d h = Held-refuse Fine c e k d h (λ h'. more d h')

pub return-IsFree {ℓ κ} :
    {A : Type ℓ} {B : Type κ} (r : Result DispatchError A) (k : A → M B)
    → ((a : A) → IsFree (k a))
    → IsFree (return r >>= k)
return-IsFree r k more d h = Held-return Fine r k d h (λ a. more a d h)

pub if-IsFree {ℓ} :
    {A : Type ℓ} (c : Bool) (m k : M A) → IsFree m → IsFree k → IsFree (if c then m else k)
if-IsFree true m k h h' = h
if-IsFree false m k h h' = h'

module _ (o : Outside) (w : Workers) where
  pub result_of-Free :
      (a : Authorization) (output : Output) (status : String) (now : ℕ) (d : Dispatcher)
      → IsOnce d
      → Free (result_of o w a output status now d)
  result_of-Free a output status now d h =
      Held-return Fine (as_clock (ms_to_timestamp now)) (result_at o w a output status) d h
        (λ completed. h)

  -- a write to the ledger, and then an error
  pub audit-fail-Free {ℓ} :
      (A : Type ℓ) (fault : Fault) (a : Authorization) (text : String) (now : ℕ) (e : DispatchError)
      (d : Dispatcher)
      → IsOnce d
      → Free ((audit o w fault a text now >> fail {A = A} e) d)
  audit-fail-Free A fault a text now e d h =
      Post-continue Fine Fine (audit o w fault a text now d) (λ u. fail {A = A} e)
        (Held-audit o none d fault a text now h) (λ u d' k. k)

  -- a write to the ledger, and then a result
  pub audit-result-Free :
      (fault : Fault) (a b : Authorization) (text status : String) (output : Output) (now : ℕ)
      (d : Dispatcher)
      → IsOnce d
      → Free ((audit o w fault a text now >> result_of o w b output status now) d)
  audit-result-Free fault a b text status output now d h =
      Post-continue Fine Fine (audit o w fault a text now d)
        (λ u. result_of o w b output status now) (Held-audit o none d fault a text now h)
        (λ u d' k. result_of-Free b output status now d' k)

  pub refuse_unneeded-Free :
      (faults : Faults) (a : Authorization) (now : ℕ) (c : Bool) (d : Dispatcher)
      → IsOnce d
      → Free (refuse_unneeded o w faults a now c d)
  refuse_unneeded-Free faults a now true d h = h
  refuse_unneeded-Free faults a now false d h =
      audit-fail-Free (Unit {0}) faults.outcome a "remote_approval_policy_required" now
        remote_approval_policy_required d h

  pub refuse_audited-Free :
      (faults : Faults) (a : Authorization) (now : ℕ) (text : String) (e : DispatchError) (c : Bool)
      (d : Dispatcher)
      → IsOnce d
      → Free (refuse_audited o w faults a now text e c d)
  refuse_audited-Free faults a now text e false d h = h
  refuse_audited-Free faults a now text e true d h =
      audit-fail-Free (Unit {0}) faults.outcome a text now e d h

  pub authorize-IsFree :
      (fault : Fault) (request : ActionRequest) (now : ℕ) → IsFree (authorize o w fault request now)
  authorize-IsFree fault request now d h = Held-authorize o none d fault request now h

  pub check_device-IsFree :
      (request : ActionRequest) (k : M ActionResult)
      → IsFree k
      → IsFree (check_device o w request >> k)
  check_device-IsFree request k more d h =
      Held-refuse Fine (not (str_eq request.envelope.device_id d.device_id)) wrong_device k d h
        (λ h'. more d h')

  pub check_approved_action-IsFree :
      (request : ActionRequest) (k : M ActionResult)
      → IsFree k
      → IsFree (check_approved_action o w request >> k)
  check_approved_action-IsFree request k more =
      refuse-IsFree (not (remote_approved_action_allowed request.envelope.action))
        remote_action_not_allowed k more

  pub run_authorized-IsFree : (a : Authorization) → IsFree (run_authorized o w a)
  run_authorized-IsFree a d h = ((tt, h.0), h.1)
