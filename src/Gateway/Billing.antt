-- ===== src/Gateway/Billing.antt =====
-- `BillingStore` of apps/vor-gateway/src/billing.rs: what a webhook event changes. A file that
-- cannot be written is an argument of the call.
pub mod Changes
pub mod Once
pub mod Consistent
use vor_commander.Base.{
  ℕ, zero, suc, String, Bool, true, false, not, Option, none, some, List, [], ◌∷◌, ◌&&◌, ◌||◌, leb,
  ltb, ◌==◌, str_eq, Result, ok, err, ok_or, reject_if, ◌>>=◌, ◌>>◌, if◌then◌else◌, all, filter,
  length,
}
use vor_commander.Base.Text.{Text, codes, trim, is_empty, byte_len, has_prefix, text_eq, is_some}
use vor_commander.Base.Map.{Map, get, insert}
use vor_commander.Json.{
  Value, Values, Fields, nil, cons, end, field, object, array, as_str, as_u64, as_bool,
}
use vor_commander.Gateway.Records.{
  BillingEventRecord, BillingCustomerRecord, BillingSubscriptionRecord, PersistedBillingState,
  BillingStore, BillingStoreSummary, WebhookApplyResult, BillingError, default_state,
  not_configured, live_key_rejected, invalid_key, stripe_response, invalid_signature,
  missing_webhook_secret, invalid_state, io, json, invalid_request,
}
use vor_commander.Gateway.Fields.{
  find_field, get_key, first_value, get_first, option_bind, or_empty, nested, nested_str,
  nested_u64, required_str, stripe_object, first_price, is_id_char, clean_id,
}
use vor_commander.Gateway.Events.{
  is_foreign, customer_record, upsert_customer, or_insert, recorded, checkout_record,
  apply_checkout_completed, is_active, or_unknown, subscription_record, apply_for_customer,
  apply_subscription_event, is_subscription_event, apply_event_to_state,
}

-- `open` of a path: what the file holds, if there is one, and whether a new one can be written
unfoldable pub open_store : Option PersistedBillingState → Bool → Result BillingError BillingStore
open_store none true = ok (record { file = some default_state; state = default_state })
open_store none false = err io
open_store (some s) written = do
  reject_if (not (s.version == 1)) invalid_state
  ok (record { file = some s; state = s })

unfoldable pub memory : BillingStore
memory = record { file = none; state = default_state }

unfoldable pub summary : BillingStore → BillingStoreSummary
summary store = record {
  persistent = is_some store.file;
  processed_events = length store.state.events;
  customers = length store.state.customers;
  subscriptions = length store.state.subscriptions;
  active_entitlements = length (filter (λ (k, s). s.entitlement_active) store.state.subscriptions);
}

abbrev pub is_of : Text → Option BillingCustomerRecord → Bool
is_of organization_id none = false
is_of organization_id (some r) = text_eq r.organization_id organization_id

unfoldable pub customer_belongs_to : Text → String → BillingStore → Bool
customer_belongs_to organization_id stripe_customer_id store =
    is_of organization_id (get stripe_customer_id store.state.customers)

abbrev pub event_record : WebhookApplyResult → ℕ → BillingEventRecord
event_record r now = record {
  event_id = r.event_id;
  event_type = r.event_type;
  processed_at_unix_seconds = now;
  organization_id = r.organization_id;
  applied = r.applied;
  reason = r.reason;
}

-- `persist_locked`, for a changed state that is already held
abbrev pub persist_locked :
    Bool
    → Option PersistedBillingState
    → PersistedBillingState
    → WebhookApplyResult
    → BillingStore × Result BillingError WebhookApplyResult
persist_locked written none next r = (record { file = none; state = next }, ok r)
persist_locked true (some old) next r = (record { file = some next; state = next }, ok r)
persist_locked false (some old) next r = (record { file = some old; state = next }, err io)

abbrev pub keep_applied :
    Bool
    → BillingStore
    → String
    → ℕ
    → Result BillingError (PersistedBillingState × WebhookApplyResult)
    → BillingStore × Result BillingError WebhookApplyResult
keep_applied written store event_id now (err e) = (store, err e)
keep_applied written store event_id now (ok (next, r)) =
    persist_locked written store.file
      (record next { events = insert event_id (event_record r now) next.events }) r

abbrev pub apply_new :
    Bool
    → BillingStore
    → String
    → String
    → Value
    → ℕ
    → Option BillingEventRecord
    → BillingStore × Result BillingError WebhookApplyResult
apply_new written store event_id event_type event now (some seen) = (
  store,
  ok (record {
    event_id = event_id;
    event_type = event_type;
    duplicate = true;
    applied = false;
    organization_id = none;
    reason = "already_processed";
  }),
)
apply_new written store event_id event_type event now none =
    keep_applied written store event_id now
      (apply_event_to_state store.state event_id event_type event now)

-- the two strings that every event has
abbrev pub event_names : Value → Result BillingError (String × String)
event_names event = do
  event_id ← required_str event "id"
  event_type ← required_str event "type"
  ok (event_id, event_type)

abbrev pub apply_named :
    Bool
    → BillingStore
    → Value
    → ℕ
    → Result BillingError (String × String)
    → BillingStore × Result BillingError WebhookApplyResult
apply_named written store event now (err e) = (store, err e)
apply_named written store event now (ok (event_id, event_type)) =
    apply_new written store event_id event_type event now (get event_id store.state.events)

unfoldable pub apply_test_webhook :
    Bool → Value → ℕ → BillingStore → BillingStore × Result BillingError WebhookApplyResult
apply_test_webhook written event now store = apply_named written store event now (event_names event)
