-- ===== src/Gateway/Billing/Changes.antt =====
-- What an event changes in the billing state of apps/vor-gateway/src/billing.rs, and what every call
-- of the store and every restart keeps.
use vor_commander.Base.{
  ℕ, String, ◌≡◌, refl, sym, ap, ◌∙◌, subst, Bool, true, false, not, Option, none, some, [], ◌∷◌,
  ◌||◌, str_eq, Result, ok, ok_or, arith, inl, inr, ◌⊎◌, ◌==◌, Bool-cases, Option-cases,
  Result-cases, >>=-eq-ok, reject_if-eq-ok,
}
use vor_commander.Base.Text.{codes, has_prefix}
use vor_commander.Base.Map.{get, insert}
use vor_commander.Json.{Value}
use vor_commander.Gateway.Records.{
  BillingEventRecord, BillingCustomerRecord, BillingSubscriptionRecord, PersistedBillingState,
  BillingStore, WebhookApplyResult, BillingError, invalid_request, invalid_state,
}
use vor_commander.Gateway.Fields.{or_empty, nested_str, stripe_object, clean_id}
use vor_commander.Gateway.Events.{
  is_foreign, upsert_customer, customer_record, checkout_record, or_insert,
  apply_checkout_completed, is_active, subscription_record, apply_subscription_event,
  is_subscription_event, apply_event_to_state,
}
use vor_commander.Gateway.Billing.{
  open_store, event_record, event_names, persist_locked, apply_test_webhook,
}

-- The three ways in which an event that is applied changes the state.
pub data Change (state : PersistedBillingState) : PersistedBillingState → Type 0 where
  unchanged : Change state state
  checkout :
      (id : String) (r : BillingSubscriptionRecord) (c : BillingCustomerRecord)
      → is_foreign c.organization_id (get c.stripe_customer_id state.customers) ≡ false
      → r.organization_id ≡ c.organization_id
      → r.stripe_customer_id ≡ c.stripe_customer_id
      → r.entitlement_active ≡ false
      → Change state (
          or_insert id r
            (record state { customers = insert c.stripe_customer_id c state.customers }))
  subscription :
      (id : String) (r : BillingSubscriptionRecord) (c : BillingCustomerRecord)
      → get r.stripe_customer_id state.customers ≡ some c
      → r.organization_id ≡ c.organization_id
      → r.entitlement_active ≡ is_active r.status
      → Change state (record state { subscriptions = insert id r state.subscriptions })

subst_Change :
    (state next other : PersistedBillingState)
    → other ≡ next
    → Change state other
    → Change state next
subst_Change state next other e c = rw (← e) c

result-eq :
    {a b : PersistedBillingState} {u w : WebhookApplyResult}
    → ◌≡◌ {A = Result BillingError (PersistedBillingState × WebhookApplyResult)}
        (ok (a, u))
        (ok (b, w))
    → a ≡ b
result-eq h = cc

checkout-Change :
    (state next : PersistedBillingState) (event_id event_type : String) (event : Value) (now : ℕ)
    (w : WebhookApplyResult)
    → apply_checkout_completed state event_id event_type event now ≡ ok (next, w)
    → Change state next
unfolding apply_checkout_completed upsert_customer
checkout-Change state next event_id event_type event now w h =
    let (payload, _, h1) = >>=-eq-ok (stripe_object event) _ h in
    let (organization, _, h2) =
      >>=-eq-ok
        (ok_or (nested_str payload ("metadata" ∷ "organization_id" ∷ []))
          (invalid_request "missing organization_id metadata"))
        _ h1 in
    let (organization_id, _, h3) = >>=-eq-ok (clean_id organization "organization_id") _ h2 in
    let customer_id = or_empty (nested_str payload ("customer" ∷ [])) in
    let subscription_id = or_empty (nested_str payload ("subscription" ∷ [])) in
    let plan_id = nested_str payload ("metadata" ∷ "plan_id" ∷ []) in
    let (_, h4) =
      reject_if-eq-ok
        (not (has_prefix (codes "cus_") (codes customer_id))
          || not (has_prefix (codes "sub_") (codes subscription_id)))
        (invalid_request "checkout session missing Stripe customer or subscription") _ h3 in
    elim (Bool-cases (is_foreign organization_id (get customer_id state.customers))) [
      | inl e ↦ absurd (ground (arith, rw e at h4))
      | inr e ↦
          let c = customer_record organization_id customer_id now in
          let r = checkout_record organization_id customer_id subscription_id plan_id now in
          subst_Change state next
            (or_insert subscription_id r
              (record state { customers = insert customer_id c state.customers }))
            (result-eq (rw e at h4)) (checkout subscription_id r c e refl refl refl)
    ]

subscription-Change :
    (state next : PersistedBillingState) (event_id event_type : String) (event : Value) (now : ℕ)
    (w : WebhookApplyResult)
    → apply_subscription_event state event_id event_type event now ≡ ok (next, w)
    → Change state next
unfolding apply_subscription_event
subscription-Change state next event_id event_type event now w h =
    let (payload, _, h1) = >>=-eq-ok (stripe_object event) _ h in
    let subscription_id = or_empty (nested_str payload ("id" ∷ [])) in
    let customer_id = or_empty (nested_str payload ("customer" ∷ [])) in
    let (_, h2) =
      reject_if-eq-ok
        (not (has_prefix (codes "sub_") (codes subscription_id))
          || not (has_prefix (codes "cus_") (codes customer_id)))
        (invalid_request "subscription event missing Stripe customer or subscription") _ h1 in
    elim (Option-cases (get customer_id state.customers)) [
      | inl e ↦ subst_Change state next state (result-eq (rw e at h2)) unchanged
      | inr (c, e) ↦
          let r = subscription_record state payload subscription_id customer_id now c in
          subst_Change state next
            (record state { subscriptions = insert subscription_id r state.subscriptions })
            (result-eq (rw e at h2)) (subscription subscription_id r c e refl refl)
    ]

pub apply-Change :
    (state next : PersistedBillingState) (event_id event_type : String) (event : Value) (now : ℕ)
    (w : WebhookApplyResult)
    → apply_event_to_state state event_id event_type event now ≡ ok (next, w)
    → Change state next
unfolding apply_event_to_state
apply-Change state next event_id event_type event now w h =
    elim (Bool-cases (str_eq event_type "checkout.session.completed")) [
      | inl e ↦ checkout-Change state next event_id event_type event now w (rw e at h)
      | inr e ↦ elim (Bool-cases (is_subscription_event event_type)) [
        | inl q ↦ subscription-Change state next event_id event_type event now w (rw (e, q) at h)
        | inr q ↦ subst_Change state next state (result-eq (rw (e, q) at h)) unchanged
      ]
    ]

-- A call leaves the store as it was, or it applies a new event and marks it as processed.
pub webhook-cases :
    (written : Bool) (event : Value) (now : ℕ) (s : BillingStore)
    → ((apply_test_webhook written event now s).0 ≡ s)
      ⊎ ((id : String) × (next : PersistedBillingState) × (r : BillingEventRecord)
          × (w : WebhookApplyResult) × Change s.state next
          × (apply_test_webhook written event now s
              ≡ persist_locked written s.file (record next { events = insert id r next.events }) w))
unfolding apply_test_webhook
webhook-cases written event now s = elim (Result-cases (event_names event)) [
  | inr (x, e) ↦ inl (rw e)
  | inl ((id, name), e) ↦ elim (Option-cases (get id s.state.events)) [
    | inr (seen, q) ↦ inl (rw (e, q))
    | inl q ↦ elim (Result-cases (apply_event_to_state s.state id name event now)) [
      | inr (x, a) ↦ inl (rw (e, q, a))
      | inl ((next, w), a) ↦ inr (
        id,
        next,
        event_record w now,
        w,
        apply-Change s.state next id name event now w a,
        rw (e, q, a),
      )
    ]
  ]
]

-- A webhook call, or a restart of the process, which reads the file again.
pub data Step : BillingStore → BillingStore → Type 0 where
  webhook :
      (written : Bool) (event : Value) (now : ℕ) (s t : BillingStore)
      → t ≡ (apply_test_webhook written event now s).0
      → Step s t
  restart :
      (s t : BillingStore) (f : PersistedBillingState)
      → s.file ≡ some f
      → open_store (some f) true ≡ ok t
      → Step s t

pub data Reach (s : BillingStore) : BillingStore → Type 0 where
  here : Reach s s
  then_step : {t u : BillingStore} → Reach s t → Step t u → Reach s u

pub open_store-eq-ok :
    (f : PersistedBillingState) (t : BillingStore)
    → open_store (some f) true ≡ ok t
    → t ≡ record { file = some f; state = f }
unfolding open_store
open_store-eq-ok f t h =
    let (_, h1) = reject_if-eq-ok (not (f.version == 1)) invalid_state _ h in ground (arith, h1)

-- What holds of the state in the process, and of the one in the file if there is one.
pub record Holds {ℓ} (P : PersistedBillingState → Type ℓ) (s : BillingStore) : Type ℓ where
  pub in_process : P s.state
  pub in_file : (f : PersistedBillingState) → s.file ≡ some f → P f

module _ {ℓ} (P : PersistedBillingState → Type ℓ)
    (kept : (state next : PersistedBillingState) (id : String) (r : BillingEventRecord)
      → Change state next
      → P state
      → P (record next { events = insert id r next.events })) where
  persist-Holds :
      (written : Bool) (file : Option PersistedBillingState) (next : PersistedBillingState)
      (w : WebhookApplyResult)
      → P next
      → ((f : PersistedBillingState) → file ≡ some f → P f)
      → Holds P (persist_locked written file next w).0
  persist-Holds written none next w p old = record {
    in_process = p;
    in_file = λ f e. absurd (ground (arith, e));
  }
  persist-Holds true (some f) next w p old = record {
    in_process = p;
    in_file = λ g e. subst P (ground (arith, e)) p;
  }
  persist-Holds false (some f) next w p old = record { in_process = p; in_file = old }

  -- What every change keeps holds after every step, in the process and in the file.
  pub Step-Holds : {s t : BillingStore} → Step s t → Holds P s → Holds P t
  Step-Holds (webhook written event now s t e) h = elim (webhook-cases written event now s) [
    | inl same ↦ subst (Holds P) (sym (e ∙ same)) h
    | inr (id, after, r, w, c, q) ↦ subst (Holds P) (sym (e ∙ ap (λ p. p.0) q)) (
        persist-Holds written s.file (record after { events = insert id r after.events }) w
          (kept s.state after id r c h.in_process) h.in_file)
  ]
  Step-Holds (restart s t f e o) h = subst (Holds P) (sym (open_store-eq-ok f t o)) (record {
    in_process = h.in_file f e;
    in_file = λ g q. subst P (ground (arith, q)) (h.in_file f e);
  })

  pub Reach-Holds : {s t : BillingStore} → Reach s t → Holds P s → Holds P t
  Reach-Holds here h = h
  Reach-Holds (then_step r st) h = Step-Holds st (Reach-Holds r h)
