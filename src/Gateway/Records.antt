-- ===== src/Gateway/Records.antt =====
-- The data of apps/vor-gateway/src/billing.rs.
use vor_commander.Base.{ℕ, String, Bool, Option, []}
use vor_commander.Base.Text.{Text}
use vor_commander.Base.Map.{Map}

pub record BillingEventRecord : Type 0 where
  pub event_id : String
  pub event_type : String
  pub processed_at_unix_seconds : ℕ
  pub organization_id : Option Text
  pub applied : Bool
  pub reason : String

pub record BillingCustomerRecord : Type 0 where
  pub organization_id : Text
  pub stripe_customer_id : String
  pub updated_at_unix_seconds : ℕ

pub record BillingSubscriptionRecord : Type 0 where
  pub organization_id : Text
  pub stripe_customer_id : String
  pub stripe_subscription_id : String
  pub status : String
  pub plan_id : Option String
  pub price_id : Option String
  pub current_period_end : Option ℕ
  pub entitlement_active : Bool
  pub updated_at_unix_seconds : ℕ

pub record PersistedBillingState : Type 0 where
  pub version : ℕ
  pub events : Map BillingEventRecord
  pub customers : Map BillingCustomerRecord
  pub subscriptions : Map BillingSubscriptionRecord

-- what the file holds, where the store has a path, and what the process holds
pub record BillingStore : Type 0 where
  pub file : Option PersistedBillingState
  pub state : PersistedBillingState

pub record BillingStoreSummary : Type 0 where
  pub persistent : Bool
  pub processed_events : ℕ
  pub customers : ℕ
  pub subscriptions : ℕ
  pub active_entitlements : ℕ

pub record WebhookApplyResult : Type 0 where
  pub event_id : String
  pub event_type : String
  pub duplicate : Bool
  pub applied : Bool
  pub organization_id : Option Text
  pub reason : String

pub data BillingError : Type 0 where
  not_configured live_key_rejected invalid_key stripe_response : BillingError
  invalid_signature missing_webhook_secret invalid_state io json : BillingError
  invalid_request : String → BillingError

unfoldable pub default_state : PersistedBillingState
default_state = record { version = 1; events = []; customers = []; subscriptions = [] }
