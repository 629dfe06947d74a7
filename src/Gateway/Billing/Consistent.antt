-- ===== src/Gateway/Billing/Consistent.antt =====
-- Customers, organizations and entitlements in the state of apps/vor-gateway/src/billing.rs.
use vor_commander.Base.{
  String, ◌≡◌, refl, sym, ap, ◌∙◌, subst, true, false, some, str_eq, eq_iff, arith, inl, inr,
  Bool-cases,
}
use vor_commander.Base.Text.{Text, is_some, text_eq, text_eq→≡, text_eq_refl}
use vor_commander.Base.Map.{get, insert, get-insert}
use vor_commander.Gateway.Records.{
  BillingCustomerRecord, BillingSubscriptionRecord, PersistedBillingState, BillingStore,
}
use vor_commander.Gateway.Events.{is_foreign, is_active, or_insert}
use vor_commander.Gateway.Billing.{customer_belongs_to}
use vor_commander.Gateway.Billing.Changes.{
  Change, unchanged, checkout, subscription, Reach, Holds, Reach-Holds,
}

-- A customer is on record for an organization.
abbrev pub IsMapped : String → Text → PersistedBillingState → Type 0
IsMapped id organization_id state =
    (c : BillingCustomerRecord) × (get id state.customers ≡ some c)
    × (c.organization_id ≡ organization_id)

or_insert-customers :
    (id : String) (r : BillingSubscriptionRecord) (state : PersistedBillingState)
    → (or_insert id r state).customers ≡ state.customers
or_insert-customers id r state = elim (Bool-cases (is_some (get id state.subscriptions))) [
  | inl e ↦ rw e
  | inr e ↦ rw e
]

insert-IsMapped :
    (k id : String) (o : Text) (state : PersistedBillingState) (c : BillingCustomerRecord)
    → is_foreign c.organization_id (get k state.customers) ≡ false
    → IsMapped id o state
    → IsMapped id o (record state { customers = insert k c state.customers })
insert-IsMapped k id o state c own (old, e, same) = elim (Bool-cases (str_eq k id)) [
  | inr q ↦ (old, get-insert k id c state.customers ∙ rw q e, same)
  | inl q ↦
      let there : get k state.customers ≡ some old = rw ((eq_iff k id).0 q) e in
      let kept : text_eq old.organization_id c.organization_id ≡ true =
        ground (arith, rw there at own) in
      (
        c,
        get-insert k id c state.customers ∙ rw q,
        sym (text_eq→≡ old.organization_id c.organization_id kept) ∙ same,
      )
]

Change-IsMapped :
    (id : String) (o : Text) {state after : PersistedBillingState}
    → Change state after
    → IsMapped id o state
    → IsMapped id o after
Change-IsMapped id o unchanged m = m
Change-IsMapped id o {state} (checkout k r c own _ _ _) m =
    let (d, e, same) = insert-IsMapped c.stripe_customer_id id o state c own m in
    (d, ap (get id) (or_insert-customers k r _) ∙ e, same)
Change-IsMapped id o (subscription k r c _ _ _) m = m

-- A customer that is on record for an organization, in the process and in the file, stays with it:
-- after any events and restarts it belongs to that organization and to no other.
pub customer_never_moves :
    (id : String) (o other : Text) (s t : BillingStore)
    → Holds (IsMapped id o) s
    → Reach s t
    → (customer_belongs_to o id t ≡ true) × (customer_belongs_to other id t ≡ true → other ≡ o)
unfolding customer_belongs_to
customer_never_moves id o other s t mapped reached =
    let (c, e, same) =
      (Reach-Holds (IsMapped id o) (λ state after k r change m. Change-IsMapped id o change m)
        reached mapped).in_process in
    (
      rw (e, same) (text_eq_refl o),
      λ h.
          let agrees : text_eq c.organization_id other ≡ true = rw e at h in
          sym (text_eq→≡ c.organization_id other agrees) ∙ same,
    )

-- The customer of a subscription is on record for the same organization, and the subscription is an
-- entitlement only in a status that counts as active.
abbrev pub IsBacked : PersistedBillingState → BillingSubscriptionRecord → Type 0
IsBacked state r =
    IsMapped r.stripe_customer_id r.organization_id state
    × (r.entitlement_active ≡ true → is_active r.status ≡ true)

abbrev pub IsConsistent : PersistedBillingState → Type 0
IsConsistent state =
    (k : String) (r : BillingSubscriptionRecord)
    → get k state.subscriptions ≡ some r
    → IsBacked state r

insert-IsConsistent :
    (c : BillingCustomerRecord) (state : PersistedBillingState)
    → is_foreign c.organization_id (get c.stripe_customer_id state.customers) ≡ false
    → IsConsistent state
    → IsConsistent (record state { customers = insert c.stripe_customer_id c state.customers })
insert-IsConsistent c state own all_backed k r e =
    let (mapped, active) = all_backed k r e in
    (
      insert-IsMapped c.stripe_customer_id r.stripe_customer_id r.organization_id state c own
          mapped,
      active,
    )

-- A record that is backed can be entered.
enter-IsConsistent :
    (k : String) (r : BillingSubscriptionRecord) (state : PersistedBillingState)
    → IsBacked state r
    → IsConsistent state
    → IsConsistent (record state { subscriptions = insert k r state.subscriptions })
enter-IsConsistent k r state backed all_backed j q e = elim (Bool-cases (str_eq k j)) [
  | inl same ↦
      subst (IsBacked state) {x = r} {y = q}
        (ground (arith, e, get-insert k j r state.subscriptions, same)) backed
  | inr ne ↦ all_backed j q (ground (arith, e, get-insert k j r state.subscriptions, ne))
]

or_insert-IsConsistent :
    (k : String) (r : BillingSubscriptionRecord) (state : PersistedBillingState)
    → IsBacked state r
    → IsConsistent state
    → IsConsistent (or_insert k r state)
or_insert-IsConsistent k r state backed all_backed =
    elim (Bool-cases (is_some (get k state.subscriptions))) [
      | inl e ↦ rw e all_backed
      | inr e ↦ rw e (enter-IsConsistent k r state backed all_backed)
    ]

checkout-IsBacked :
    (r : BillingSubscriptionRecord) (c : BillingCustomerRecord) (state : PersistedBillingState)
    → r.organization_id ≡ c.organization_id
    → r.stripe_customer_id ≡ c.stripe_customer_id
    → r.entitlement_active ≡ false
    → IsBacked (record state { customers = insert c.stripe_customer_id c state.customers }) r
checkout-IsBacked r c state o i inactive = (
  (
    c,
    ap (λ k. get k (insert c.stripe_customer_id c state.customers)) i
        ∙ get-insert c.stripe_customer_id c.stripe_customer_id c state.customers
        ∙ rw ((eq_iff c.stripe_customer_id c.stripe_customer_id).1 refl),
    sym o,
  ),
  λ h. absurd (ground (arith, h, inactive)),
)

Change-IsConsistent :
    {state after : PersistedBillingState}
    → Change state after
    → IsConsistent state
    → IsConsistent after
Change-IsConsistent unchanged h = h
Change-IsConsistent {state} (checkout k r c own o i inactive) h =
    or_insert-IsConsistent k r
      (record state { customers = insert c.stripe_customer_id c state.customers })
      (checkout-IsBacked r c state o i inactive) (insert-IsConsistent c state own h)
Change-IsConsistent {state} (subscription k r c known o active) h =
    enter-IsConsistent k r state ((c, known, sym o), λ e. sym active ∙ e) h

-- Every entitlement is backed: if in the process and in the file each subscription belongs to a
-- customer on record for its organization, and is active only in an active status, then so it is
-- after any events, written or not, and any restarts.
pub Reach-IsConsistent :
    (s t : BillingStore) → Holds IsConsistent s → Reach s t → Holds IsConsistent t
Reach-IsConsistent s t h reached =
    Reach-Holds IsConsistent (λ state after k r change m. Change-IsConsistent change m) reached h
