-- ===== src/Dispatch/Hoare.antt =====
-- What the handlers of crates/vor-dispatch/src/lib.rs keep about the effects so far, step by step:
-- each approved one has its approval consumed in the ledger, and no two are for one request.
use vor_commander.Base.{
  ℕ, String, ◌≡◌, ◌≢◌, refl, sym, ap, subst, Bool, true, false, Option, none, some, List, [], ◌∷◌,
  Result, ok, err, All,
}
use vor_commander.Protocol.{ActionRequest}
use vor_commander.Approval.{SignedApproval, ApprovalVerifier}
use vor_commander.Audit.Table.{Key}
use vor_commander.Audit.Store.{Disk, Fault}
use vor_commander.Audit.Recovery.{ExecutionRecoveryState}
use vor_commander.Audit.Recovery.OneShot.{IsConsumed}
use vor_commander.Core.{
  Outside, Authorization, ExecutionAuthorization, Broker, CoreError, key_of, authorize_at,
  consume_approval_at, audit_outcome_at, set_execution_recovery_state,
}
use vor_commander.Core.Consume.{
  authorize, consume, outcome, set_state, run_call, call-IsConsumed, consume-ok-IsConsumed,
  IsConsumed-consume, consume-request,
}
use vor_commander.Dispatch.State.{
  DispatchError, Effect, approved, automatic, Dispatcher, M, ◌>>=◌, ◌>>◌, continue_with, refuse,
  return, answered, ask, try_ask,
}

abbrev pub IsBacked : Disk → Effect → Type 0
IsBacked disk (approved x) = IsConsumed (key_of x.authorization.request) disk
IsBacked disk (automatic a) = Unit {0}

abbrev pub Differs : Key → Effect → Type 0
Differs k (approved x) = key_of x.authorization.request ≢ k
Differs k (automatic a) = Unit {0}

-- No two approved effects have one request id and digest.
abbrev pub Distinct : List Effect → Type 0
Distinct [] = Unit {0}
Distinct (approved x ∷ es) = All (Differs (key_of x.authorization.request)) es × Distinct es
Distinct (automatic a ∷ es) = Distinct es

abbrev pub IsSafe : List Effect → Disk → Type 0
IsSafe es disk = All (IsBacked disk) es × Distinct es

-- with an effect that is about to happen, or with none
abbrev pub Held : Option ExecutionAuthorization → Dispatcher → Type 0
Held none d = IsSafe d.effects d.broker.ledger.disk
Held (some x) d = IsSafe (approved x ∷ d.effects) d.broker.ledger.disk

abbrev pub IsOnce : Dispatcher → Type 0
IsOnce d = Held none d

abbrev pub Post {ℓ} :
    {A : Type ℓ} → (A → Dispatcher → Type 0) → Dispatcher × Result DispatchError A → Type 0
Post Q (d, ok a) = Q a d
Post Q (d, err e) = IsOnce d

pub Post-continue {ℓ κ} :
    {A : Type ℓ} {B : Type κ} (Q : A → Dispatcher → Type 0) (R : B → Dispatcher → Type 0)
    (x : Dispatcher × Result DispatchError A) (f : A → M B)
    → Post Q x
    → ((a : A) (d : Dispatcher) → Q a d → Post R (f a d))
    → Post R (continue_with f x)
Post-continue Q R (d, ok a) f h more = more a d h
Post-continue Q R (d, err e) f h more = h

abbrev pub Keeps : Disk → Disk → Type 0
Keeps before after = (k : Key) → IsConsumed k before → IsConsumed k after

All-IsBacked :
    (before after : Disk) (es : List Effect)
    → Keeps before after
    → All (IsBacked before) es
    → All (IsBacked after) es
All-IsBacked before after [] keeps h = tt
All-IsBacked before after (approved x ∷ es) keeps h =
    (keeps _ h.0, All-IsBacked before after es keeps h.1)
All-IsBacked before after (automatic a ∷ es) keeps h = (tt, All-IsBacked before after es keeps h.1)

pub Held-kept :
    (e : Option ExecutionAuthorization) (d : Dispatcher) (b : Broker)
    → Keeps d.broker.ledger.disk b.ledger.disk
    → Held e d
    → Held e (record d { broker = b })
Held-kept none d b keeps h = (All-IsBacked _ _ d.effects keeps h.0, h.1)
Held-kept (some x) d b keeps h = (All-IsBacked _ _ (approved x ∷ d.effects) keeps h.0, h.1)

Held-IsOnce : (e : Option ExecutionAuthorization) (d : Dispatcher) → Held e d → IsOnce d
Held-IsOnce none d h = h
Held-IsOnce (some x) d h = (h.0.1, h.1.1)

module _ {ℓ} {A : Type ℓ} (e : Option ExecutionAuthorization) (d : Dispatcher) where
  Held-answered :
      (x : Broker × Result CoreError A)
      → Keeps d.broker.ledger.disk x.0.ledger.disk
      → Held e d
      → Post (λ a d'. Held e d') (answered d x)
  Held-answered (b, ok a) keeps h = Held-kept e d b keeps h
  Held-answered (b, err x) keeps h =
      Held-IsOnce e (record d { broker = b }) (Held-kept e d b keeps h)

module _ (o : Outside) (e : Option ExecutionAuthorization) (d : Dispatcher) where
  pub Held-authorize :
      (fault : Fault) (request : ActionRequest) (now : ℕ)
      → Held e d
      → Post (λ a d'. Held e d') (ask (λ b. authorize_at o fault b request now) d)
  unfolding run_call
  Held-authorize fault request now h =
      Held-answered e d (authorize_at o fault d.broker request now)
        (λ k c. call-IsConsumed o k (authorize fault request now) d.broker c) h

  pub Held-audit :
      (fault : Fault) (a : Authorization) (text : String) (now : ℕ)
      → Held e d
      → Post (λ u d'. Held e d') (ask (λ b. audit_outcome_at o fault b a text now) d)
  unfolding run_call
  Held-audit fault a text now h =
      Held-answered e d (audit_outcome_at o fault d.broker a text now)
        (λ k c. call-IsConsumed o k (outcome fault a text now) d.broker c) h

  pub Held-try_audit :
      (fault : Fault) (a : Authorization) (text : String) (now : ℕ)
      → Held e d
      → Post (λ u d'. Held e d') (try_ask (λ b. audit_outcome_at o fault b a text now) d)
  unfolding run_call
  Held-try_audit fault a text now h =
      Held-kept e d (audit_outcome_at o fault d.broker a text now).0
        (λ k c. call-IsConsumed o k (outcome fault a text now) d.broker c) h

  pub Held-set_state :
      (a : Authorization) (state : ExecutionRecoveryState) (now : ℕ)
      → Held e d
      → Post (λ u d'. Held e d') (ask (λ b. set_execution_recovery_state o b a state now) d)
  unfolding run_call
  Held-set_state a state now h =
      Held-answered e d (set_execution_recovery_state o d.broker a state now)
        (λ k c. call-IsConsumed o k (set_state a state now) d.broker c) h

All-Differs :
    (disk : Disk) (k : Key) (es : List Effect)
    → ¬ IsConsumed k disk
    → All (IsBacked disk) es
    → All (Differs k) es
All-Differs disk k [] fresh h = tt
All-Differs disk k (approved x ∷ es) fresh h =
    (λ same. fresh (subst (λ j. IsConsumed j disk) same h.0), All-Differs disk k es fresh h.1)
All-Differs disk k (automatic a ∷ es) fresh h = (tt, All-Differs disk k es fresh h.1)

module _ (o : Outside) (d : Dispatcher) where
  -- a consumed approval is for a request that none of the effects so far is for
  Held-consumed :
      (f g : Fault) (request : ActionRequest) (signed : SignedApproval)
      (verifier : ApprovalVerifier) (now : ℕ) (x : Broker × Result CoreError ExecutionAuthorization)
      → x ≡ consume_approval_at o f g d.broker request signed verifier now
      → IsOnce d
      → Post (λ a d'. Held (some a) d') (answered d x)
  unfolding run_call
  Held-consumed f g request signed verifier now (b, ok a) same h =
      let ran = ap (λ y. y.1) (sym same) in
      let about = consume-request o f g d.broker request signed verifier now a ran in
      let keeps : Keeps d.broker.ledger.disk b.ledger.disk = λ k c.
        subst (λ y. IsConsumed k y.0.ledger.disk) (sym same)
          (call-IsConsumed o k (consume f g request signed verifier now) d.broker c) in
      (
        (
          subst (λ r. IsConsumed (key_of r) b.ledger.disk) (sym about)
              (subst (λ y. IsConsumed (key_of request) y.0.ledger.disk) (sym same)
                (consume-ok-IsConsumed o f g d.broker request signed verifier now a ran)),
          All-IsBacked _ _ d.effects keeps h.0,
        ),
        (
          All-Differs d.broker.ledger.disk (key_of a.authorization.request) d.effects
              (λ c.
                IsConsumed-consume o f g d.broker request signed verifier now a
                  (subst (λ r. IsConsumed (key_of r) d.broker.ledger.disk) about c) ran)
              h.0,
          h.1,
        ),
      )
  Held-consumed f g request signed verifier now (b, err e) same h =
      Held-kept none d b
        (λ k c.
          subst (λ y. IsConsumed k y.0.ledger.disk) (sym same)
            (call-IsConsumed o k (consume f g request signed verifier now) d.broker c))
        h

  pub Held-consume :
      (f g : Fault) (request : ActionRequest) (signed : SignedApproval)
      (verifier : ApprovalVerifier) (now : ℕ)
      → IsOnce d
      → Post
          (λ a d'. Held (some a) d')
          (ask (λ b. consume_approval_at o f g b request signed verifier now) d)
  Held-consume f g request signed verifier now h =
      Held-consumed f g request signed verifier now _ refl h

pub Held-refuse {ℓ} :
    {B : Type ℓ} (R : B → Dispatcher → Type 0) (c : Bool) (x : DispatchError) (k : M B)
    (d : Dispatcher)
    → IsOnce d
    → (IsOnce d → Post R (k d))
    → Post R ((refuse c x >> k) d)
Held-refuse R true x k d h more = h
Held-refuse R false x k d h more = more h

pub Held-return {ℓ κ} :
    {A : Type ℓ} {B : Type κ} (R : B → Dispatcher → Type 0) (r : Result DispatchError A)
    (k : A → M B) (d : Dispatcher)
    → IsOnce d
    → ((a : A) → Post R (k a d))
    → Post R ((return r >>= k) d)
Held-return R (ok a) k d h more = more a
Held-return R (err x) k d h more = h
