-- ===== src/Gateway/Events.antt =====
-- What each kind of event changes in the state of apps/vor-gateway/src/billing.rs.
use vor_commander.Base.{
  ℕ, String, Bool, true, false, not, Option, none, some, [], ◌∷◌, ◌||◌, str_eq, Result, ok, ok_or,
  reject_if, ◌>>=◌, ◌>>◌, if◌then◌else◌,
}
use vor_commander.Base.Text.{Text, codes, has_prefix, text_eq, is_some}
use vor_commander.Base.Map.{get, insert}
use vor_commander.Json.{Value}
use vor_commander.Gateway.Records.{
  BillingCustomerRecord, BillingSubscriptionRecord, PersistedBillingState, WebhookApplyResult,
  BillingError, invalid_request,
}
use vor_commander.Gateway.Fields.{
  option_bind, or_empty, nested_str, nested_u64, stripe_object, first_price, clean_id,
}

abbrev pub is_foreign : Text → Option BillingCustomerRecord → Bool
is_foreign organization_id none = false
is_foreign organization_id (some existing) = not (text_eq existing.organization_id organization_id)

abbrev pub customer_record : Text → String → ℕ → BillingCustomerRecord
customer_record organization_id customer_id now = record {
  organization_id = organization_id;
  stripe_customer_id = customer_id;
  updated_at_unix_seconds = now;
}

unfoldable pub upsert_customer :
    PersistedBillingState → Text → String → ℕ → Result BillingError PersistedBillingState
upsert_customer state organization_id customer_id now = do
  reject_if (is_foreign organization_id (get customer_id state.customers))
      (invalid_request "stripe customer is already mapped to another organization")
  ok (record state {
    customers =
        insert customer_id (customer_record organization_id customer_id now) state.customers;
  })

-- `entry(id).or_insert_with(..)`
abbrev pub or_insert :
    String → BillingSubscriptionRecord → PersistedBillingState → PersistedBillingState
or_insert id r state =
    if is_some (get id state.subscriptions)
    then state
    else record state { subscriptions = insert id r state.subscriptions }

abbrev pub recorded : String → String → Bool → Option Text → String → WebhookApplyResult
recorded event_id event_type applied organization_id reason = record {
  event_id = event_id;
  event_type = event_type;
  duplicate = false;
  applied = applied;
  organization_id = organization_id;
  reason = reason;
}

-- the record that a completed checkout puts where its subscription has none
abbrev pub checkout_record : Text → String → String → Option String → ℕ → BillingSubscriptionRecord
checkout_record organization_id customer_id subscription_id plan_id now = record {
  organization_id = organization_id;
  stripe_customer_id = customer_id;
  stripe_subscription_id = subscription_id;
  status = "checkout_completed";
  plan_id = plan_id;
  price_id = none;
  current_period_end = none;
  entitlement_active = false;
  updated_at_unix_seconds = now;
}

unfoldable pub apply_checkout_completed :
    PersistedBillingState
    → String
    → String
    → Value
    → ℕ
    → Result BillingError (PersistedBillingState × WebhookApplyResult)
apply_checkout_completed state event_id event_type event now = do
  payload ← stripe_object event
  organization ←
      ok_or (nested_str payload ("metadata" ∷ "organization_id" ∷ []))
        (invalid_request "missing organization_id metadata")
  organization_id ← clean_id organization "organization_id"
  let customer_id = or_empty (nested_str payload ("customer" ∷ []))
  let subscription_id = or_empty (nested_str payload ("subscription" ∷ []))
  let plan_id = nested_str payload ("metadata" ∷ "plan_id" ∷ [])
  reject_if
      (not (has_prefix (codes "cus_") (codes customer_id))
        || not (has_prefix (codes "sub_") (codes subscription_id)))
      (invalid_request "checkout session missing Stripe customer or subscription")
  mapped ← upsert_customer state organization_id customer_id now
  ok (
    or_insert subscription_id
        (checkout_record organization_id customer_id subscription_id plan_id now) mapped,
    recorded event_id event_type true (some organization_id)
        "checkout_customer_subscription_recorded",
  )

abbrev pub is_active : String → Bool
is_active status = str_eq "active" status || str_eq "trialing" status

abbrev pub or_unknown : Option String → String
or_unknown none = "unknown"
or_unknown (some s) = s

-- the record of a subscription event for a known customer
abbrev pub subscription_record :
    PersistedBillingState
    → Value
    → String
    → String
    → ℕ
    → BillingCustomerRecord
    → BillingSubscriptionRecord
subscription_record state payload subscription_id customer_id now customer =
    let status = or_unknown (nested_str payload ("status" ∷ [])) in
    record {
      organization_id = customer.organization_id;
      stripe_customer_id = customer_id;
      stripe_subscription_id = subscription_id;
      status = status;
      plan_id = option_bind (get subscription_id state.subscriptions) (λ r. r.plan_id);
      price_id = first_price payload;
      current_period_end = nested_u64 payload ("current_period_end" ∷ []);
      entitlement_active = is_active status;
      updated_at_unix_seconds = now;
    }

abbrev pub apply_for_customer :
    PersistedBillingState
    → String
    → String
    → Value
    → String
    → String
    → ℕ
    → Option BillingCustomerRecord
    → PersistedBillingState × WebhookApplyResult
apply_for_customer state event_id event_type payload subscription_id customer_id now none =
    (state, recorded event_id event_type false none "unknown_customer_fail_closed")
apply_for_customer state event_id event_type payload subscription_id customer_id now (some c) = (
  record state {
    subscriptions =
        insert subscription_id (subscription_record state payload subscription_id customer_id now c)
          state.subscriptions;
  },
  recorded event_id event_type true (some c.organization_id) "subscription_state_recorded",
)

unfoldable pub apply_subscription_event :
    PersistedBillingState
    → String
    → String
    → Value
    → ℕ
    → Result BillingError (PersistedBillingState × WebhookApplyResult)
apply_subscription_event state event_id event_type event now = do
  payload ← stripe_object event
  let subscription_id = or_empty (nested_str payload ("id" ∷ []))
  let customer_id = or_empty (nested_str payload ("customer" ∷ []))
  reject_if
      (not (has_prefix (codes "sub_") (codes subscription_id))
        || not (has_prefix (codes "cus_") (codes customer_id)))
      (invalid_request "subscription event missing Stripe customer or subscription")
  ok (
      apply_for_customer state event_id event_type payload subscription_id customer_id now
        (get customer_id state.customers))

abbrev pub is_subscription_event : String → Bool
is_subscription_event t =
    str_eq t "customer.subscription.created"
    || str_eq t "customer.subscription.updated"
    || str_eq t "customer.subscription.deleted"

unfoldable pub apply_event_to_state :
    PersistedBillingState
    → String
    → String
    → Value
    → ℕ
    → Result BillingError (PersistedBillingState × WebhookApplyResult)
apply_event_to_state state event_id event_type event now =
    if str_eq event_type "checkout.session.completed"
    then apply_checkout_completed state event_id event_type event now
    else if is_subscription_event event_type
    then apply_subscription_event state event_id event_type event now
    else ok (state, recorded event_id event_type false none "event_type_recorded_only")
