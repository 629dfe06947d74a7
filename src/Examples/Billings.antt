-- ===== src/Examples/Billings.antt =====
-- Inputs for the theorems on the billing state.
use vor_commander.Base.{
  ◌≡◌, ◌⊎◌, subst, refl, Bool, true, false, none, some, [], ◌∷◌, ok, err, arith, str_eq, Bool-cases,
  inl, inr,
}
use vor_commander.Base.Text.{codes, is_whitespace, trim, trim_end}
use vor_commander.Base.Map.{get, insert}
use vor_commander.Json.{Value, str, object, field, end}
use vor_commander.Gateway.Records.{
  PersistedBillingState, BillingStore, BillingCustomerRecord, BillingSubscriptionRecord,
  WebhookApplyResult, io,
}
use vor_commander.Gateway.Fields.{required_str, stripe_object, nested_str, clean_id}
use vor_commander.Gateway.Events.{apply_checkout_completed, upsert_customer, apply_event_to_state}
use vor_commander.Gateway.Billing.{event_names, apply_test_webhook, customer_belongs_to}
use vor_commander.Gateway.Billing.Changes.{Reach, here, then_step, webhook, Holds}
use vor_commander.Gateway.Billing.Once.{
  Life, begin, IsDuplicate, processed_once, unwritten_then-IsDuplicate,
}
use vor_commander.Gateway.Billing.Consistent.{
  IsMapped, IsBacked, IsConsistent, customer_never_moves, Reach-IsConsistent,
}

-- a checkout that was completed
abbrev checkout_event : Value
checkout_event = object (
    field "id" (str "evt_1") (
      field "type" (str "checkout.session.completed") (
        field "data"
          (object (
            field "object"
              (object (
                field "customer" (str "cus_1") (
                  field "subscription" (str "sub_1")
                    (field "metadata" (object (field "organization_id" (str "org") end)) end))))
              end))
          end)))

abbrev cus_1 : BillingCustomerRecord
cus_1 = record {
  organization_id = codes "org";
  stripe_customer_id = "cus_1";
  updated_at_unix_seconds = 3;
}

abbrev sub_1 : BillingSubscriptionRecord
sub_1 = record {
  organization_id = codes "org";
  stripe_customer_id = "cus_1";
  stripe_subscription_id = "sub_1";
  status = "checkout_completed";
  plan_id = none;
  price_id = none;
  current_period_end = none;
  entitlement_active = false;
  updated_at_unix_seconds = 3;
}

abbrev empty_state : PersistedBillingState
empty_state = record { version = 1; events = []; customers = []; subscriptions = [] }

abbrev store : BillingStore
store = record { file = some empty_state; state = empty_state }

abbrev after_checkout : PersistedBillingState
after_checkout = record empty_state {
  customers = ("cus_1", cus_1) ∷ [];
  subscriptions = ("sub_1", sub_1) ∷ [];
}

abbrev answered : WebhookApplyResult
answered = record {
  event_id = "evt_1";
  event_type = "checkout.session.completed";
  duplicate = false;
  applied = true;
  organization_id = some (codes "org");
  reason = "checkout_customer_subscription_recorded";
}

names : event_names checkout_event ≡ ok ("evt_1", "checkout.session.completed")
unfolding event_names required_str
names = refl

applied :
    apply_event_to_state empty_state "evt_1" "checkout.session.completed" checkout_event 3
    ≡ ok (after_checkout, answered)
unfolding apply_event_to_state apply_checkout_completed stripe_object nested_str clean_id trim
    is_whitespace trim_end upsert_customer get insert
applied = refl

abbrev recorded_event : Value
recorded_event = object (field "id" (str "evt_1") (field "type" (str "invoice.paid") end))

recorded_names : event_names recorded_event ≡ ok ("evt_1", "invoice.paid")
unfolding event_names required_str
recorded_names = refl

abbrev after_first : BillingStore
after_first = (apply_test_webhook true checkout_event 3 store).0

first_answer : (apply_test_webhook true checkout_event 3 store).1 ≡ ok answered
unfolding apply_test_webhook get
first_answer = rw (names, applied)

abbrev after_second : BillingStore
after_second = (apply_test_webhook false recorded_event 4 after_first).0

second_lived : Life after_first false after_second
second_lived = Life.then_step begin (webhook false recorded_event 4 after_first after_second refl)

processed_once_example :
    IsDuplicate after_second (apply_test_webhook true recorded_event 9 after_second)
    ⊎ ((store.file ≡ none) × (◌≡◌ {A = Bool} false true))
processed_once_example =
    processed_once true true false checkout_event recorded_event "evt_1"
      "checkout.session.completed" "invoice.paid" 3 9 store after_second answered names
      recorded_names first_answer refl second_lived

unwritten_then-IsDuplicate_example :
    ((apply_test_webhook false checkout_event 3 store).1 ≡ err io)
    × ((apply_test_webhook false checkout_event 3 store).0.file ≡ some empty_state)
    × IsDuplicate (apply_test_webhook false checkout_event 3 store).0 (
        apply_test_webhook true checkout_event 5
          (apply_test_webhook false checkout_event 3 store).0)
unfolding get
unwritten_then-IsDuplicate_example =
    unwritten_then-IsDuplicate true checkout_event "evt_1" "checkout.session.completed" 3 5 store
      empty_state after_checkout answered refl names refl applied

abbrev mapped_store : BillingStore
mapped_store = record { file = some after_checkout; state = after_checkout }

abbrev later_store : BillingStore
later_store = (apply_test_webhook true recorded_event 4 mapped_store).0

later_reached : Reach mapped_store later_store
later_reached = then_step here (webhook true recorded_event 4 mapped_store later_store refl)

checkout-IsMapped : IsMapped "cus_1" (codes "org") after_checkout
unfolding get
checkout-IsMapped = (cus_1, refl, refl)

in_both : (P : PersistedBillingState → Type 0) → P after_checkout → Holds P mapped_store
in_both P p = record {
  in_process = p;
  in_file = λ f e. subst P {x = after_checkout} {y = f} (cc) p;
}

customer_never_moves_example :
    (customer_belongs_to (codes "org") "cus_1" later_store ≡ true)
    × (customer_belongs_to (codes "evil") "cus_1" later_store ≡ true → codes "evil" ≡ codes "org")
customer_never_moves_example =
    customer_never_moves "cus_1" (codes "org") (codes "evil") mapped_store later_store
      (in_both (IsMapped "cus_1" (codes "org")) checkout-IsMapped) later_reached

checkout-IsConsistent : IsConsistent after_checkout
unfolding get
checkout-IsConsistent k r e = elim (Bool-cases (str_eq "sub_1" k)) [
  | inl q ↦
      subst (IsBacked after_checkout) {x = sub_1} {y = r} (ground (arith, rw q at e))
        ((cus_1, refl, refl), λ h. absurd (ground (arith, h)))
  | inr q ↦ absurd (ground (arith, rw q at e))
]

Reach-IsConsistent_example : Holds IsConsistent later_store
Reach-IsConsistent_example =
    Reach-IsConsistent mapped_store later_store (in_both IsConsistent checkout-IsConsistent)
      later_reached
