-- ===== src/Dispatch/Steps.antt =====
-- What happens to a dispatcher of crates/vor-dispatch/src/lib.rs, as a step relation: remote
-- requests, changes of its registry of approvers, and restarts on the same ledger.
use vor_commander.Base.{ℕ, ◌≡◌, sym, subst, [], ok, err, All, none, Result}
use vor_commander.Protocol.{ActionRequest}
use vor_commander.Policy.Config.{PolicyEngine}
use vor_commander.Approval.{SignedApproval, ApprovalVerifier}
use vor_commander.Audit.Store.{Ledger, open_ledger}
use vor_commander.Audit.Recovery.OneShot.{IsConsumed}
use vor_commander.Audit.Recovery.Opened.{open-IsConsumed, open-eq-ok}
use vor_commander.Core.{Outside}
use vor_commander.Dispatch.State.{Dispatcher, DispatchError, Workers}
use vor_commander.Dispatch.Dispatcher.{Faults, Challenges}
use vor_commander.Dispatch.Approved.{dispatch_approved_at}
use vor_commander.Dispatch.Prepare.{dispatch_request}
use vor_commander.Dispatch.Hoare.{Held-kept, IsBacked, IsOnce, Distinct}
use vor_commander.Dispatch.Free.{Free}
use vor_commander.Dispatch.Once.{dispatch_approved_at-IsFree, dispatch_request-IsFree}

module _ (o : Outside) (w : Workers) where
  pub data Step : Dispatcher → Dispatcher → Type 0 where
    dispatch_approved :
        (faults : Faults) (request : ActionRequest) (signed : SignedApproval) (now : ℕ)
        (d : Dispatcher)
        → Step d (dispatch_approved_at o w faults request signed now d).0
    dispatch :
        (faults : Faults) (c : Challenges) (request : ActionRequest) (now : ℕ) (d : Dispatcher)
        → Step d (dispatch_request o w faults c request now d).0
    change_approvers :
        (v : ApprovalVerifier) (d : Dispatcher) → Step d (record d { approval_verifier = v })
    restart :
        (policy : PolicyEngine) (l : Ledger) (d : Dispatcher)
        → (open_ledger o.formats d.broker.ledger.disk).1 ≡ ok l
        → Step d (record d { broker = record { policy = policy; ledger = l } })

  pub data Reach (d : Dispatcher) : Dispatcher → Type 0 where
    here : Reach d d
    then_step : {e f : Dispatcher} → Reach d e → Step e f → Reach d f

  Free-IsOnce {ℓ} : {A : Type ℓ} (r : Dispatcher × Result DispatchError A) → Free r → IsOnce r.0
  Free-IsOnce (d, ok a) h = h
  Free-IsOnce (d, err e) h = h

  Step-IsOnce : {d e : Dispatcher} → Step d e → IsOnce d → IsOnce e
  Step-IsOnce (dispatch_approved faults request signed now d) h =
      Free-IsOnce (dispatch_approved_at o w faults request signed now d)
        (dispatch_approved_at-IsFree o w faults request signed now d h)
  Step-IsOnce (dispatch faults c request now d) h =
      Free-IsOnce (dispatch_request o w faults c request now d)
        (dispatch_request-IsFree o w faults c request now d h)
  Step-IsOnce (change_approvers v d) h = h
  Step-IsOnce (restart policy l d opened) h =
      Held-kept none d (record { policy = policy; ledger = l })
        (λ k c.
          subst (λ disk. IsConsumed k disk)
            (sym (open-eq-ok o.formats d.broker.ledger.disk l opened))
            (open-IsConsumed o.formats k d.broker.ledger.disk c))
        h

  -- From a dispatcher that has done nothing yet, whatever requests come and whatever fails, and over
  -- changes of the approvers, of the policy and restarts: no two approved effects are for the same
  -- request id and digest, and each of these keys is consumed in the ledger.
  pub effect_once :
      (d e : Dispatcher)
      → d.effects ≡ []
      → Reach d e
      → Distinct e.effects × All (IsBacked e.broker.ledger.disk) e.effects
  effect_once d _ none_yet here = (
    subst Distinct (sym none_yet) tt,
    subst (All (IsBacked d.broker.ledger.disk)) (sym none_yet) tt,
  )
  effect_once d e none_yet (then_step r s) =
      let h = effect_once d _ none_yet r in let h' = Step-IsOnce s (h.1, h.0) in (h'.1, h'.0)
