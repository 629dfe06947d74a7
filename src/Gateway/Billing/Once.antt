-- ===== src/Gateway/Billing/Once.antt =====
-- An event of apps/vor-gateway/src/billing.rs is applied once, and what becomes of one that could
-- not be written.
use vor_commander.Base.{
  ℕ, String, ◌≡◌, ◌⊎◌, refl, sym, ap, ◌∙◌, subst, Bool, true, false, Option, none, some, str_eq,
  eq_iff, Result, ok, err, arith, inl, inr, Bool-cases, Option-cases, Result-cases,
}
use vor_commander.Base.Text.{is_some}
use vor_commander.Base.Map.{get, insert, get-insert}
use vor_commander.Json.{Value}
use vor_commander.Gateway.Records.{
  BillingEventRecord, PersistedBillingState, BillingStore, WebhookApplyResult, BillingError, io,
  BillingSubscriptionRecord,
}
use vor_commander.Gateway.Events.{or_insert, apply_event_to_state}
use vor_commander.Gateway.Billing.{
  memory, event_names, event_record, persist_locked, apply_new, apply_named, apply_test_webhook,
}
use vor_commander.Gateway.Billing.Changes.{
  Change, unchanged, checkout, subscription, Step, webhook, restart, Reach, Holds, Reach-Holds,
  webhook-cases, open_store-eq-ok,
}

-- An event with this id is on record.
abbrev pub IsRecorded : String → PersistedBillingState → Type 0
IsRecorded id state = (r : BillingEventRecord) × (get id state.events ≡ some r)

or_insert-events :
    (id : String) (r : BillingSubscriptionRecord) (state : PersistedBillingState)
    → (or_insert id r state).events ≡ state.events
or_insert-events id r state = elim (Bool-cases (is_some (get id state.subscriptions))) [
  | inl e ↦ rw e
  | inr e ↦ rw e
]

Change-events :
    {state after : PersistedBillingState} → Change state after → after.events ≡ state.events
Change-events unchanged = refl
Change-events (checkout id r c _ _ _ _) = or_insert-events id r _
Change-events (subscription id r c _ _ _) = refl

kept-IsRecorded :
    (k : String) (state after : PersistedBillingState) (id : String) (r : BillingEventRecord)
    → Change state after
    → IsRecorded k state
    → IsRecorded k (record after { events = insert id r after.events })
kept-IsRecorded k state after id r c (old, e) = elim (Bool-cases (str_eq id k)) [
  | inl q ↦ (r, get-insert id k r after.events ∙ rw q)
  | inr q ↦ (old, get-insert id k r after.events ∙ rw q (ap (get k) (Change-events c) ∙ e))
]

-- the answer to an event that was processed before
abbrev pub IsDuplicate :
    BillingStore → BillingStore × Result BillingError WebhookApplyResult → Type 0
IsDuplicate s x =
    (x.0 ≡ s) × (w : WebhookApplyResult) × (x.1 ≡ ok w) × (w.duplicate ≡ true) × (w.applied ≡ false)

IsDuplicate-answer :
    (written : Bool) (event : Value) (id name : String) (now : ℕ) (s : BillingStore)
    → event_names event ≡ ok (id, name)
    → IsRecorded id s.state
    → IsDuplicate s (apply_test_webhook written event now s)
unfolding apply_test_webhook
IsDuplicate-answer written event id name now s e (r, q) =
    subst (λ n. IsDuplicate s (apply_named written s event now n)) (sym e)
      (subst (λ o. IsDuplicate s (apply_new written s id name event now o)) (sym q)
        (refl, _, refl, refl, refl))

persist-IsRecorded :
    (written : Bool) (file : Option PersistedBillingState) (id : String)
    (after : PersistedBillingState) (v w : WebhookApplyResult)
    → IsRecorded id after
    → (persist_locked written file after v).1 ≡ ok w
    → Holds (IsRecorded id) (persist_locked written file after v).0
persist-IsRecorded written none id after v w r h = record {
  in_process = r;
  in_file = λ f e. absurd (ground (arith, e));
}
persist-IsRecorded true (some old) id after v w r h = record {
  in_process = r;
  in_file = λ f e. subst (IsRecorded id) {x = after} {y = f} (ground (arith, e)) r;
}
persist-IsRecorded false (some old) id after v w r h = absurd (ground (arith, h))

inserted-IsRecorded :
    (id : String) (r : BillingEventRecord) (after : PersistedBillingState)
    → IsRecorded id (record after { events = insert id r after.events })
inserted-IsRecorded id r after = (r, get-insert id id r after.events ∙ rw ((eq_iff id id).1 refl))

applied-IsRecorded :
    (written : Bool) (event : Value) (id name : String) (now : ℕ) (s : BillingStore)
    (w : WebhookApplyResult)
    → event_names event ≡ ok (id, name)
    → (apply_test_webhook written event now s).1 ≡ ok w
    → w.duplicate ≡ false
    → Holds (IsRecorded id) (apply_test_webhook written event now s).0
unfolding apply_test_webhook
applied-IsRecorded written event id name now s w e h fresh =
    elim (Option-cases (get id s.state.events)) [
      | inr (seen, q) ↦ absurd (ground (arith, fresh, rw (e, q) at h))
      | inl q ↦ elim (Result-cases (apply_event_to_state s.state id name event now)) [
        | inr (x, a) ↦ absurd (ground (arith, rw (e, q, a) at h))
        | inl ((after, v), a) ↦
            rw (e, q, a)
              (persist-IsRecorded written s.file id
                (record after { events = insert id (event_record v now) after.events }) v w
                (inserted-IsRecorded id (event_record v now) after) (rw (e, q, a) at h))
      ]
    ]

-- What can happen to a store, and whether it was emptied on the way: a restart of a store without a
-- file starts from `memory`.
pub data Life (s : BillingStore) : Bool → BillingStore → Type 0 where
  begin : Life s false s
  then_step : {b : Bool} {t u : BillingStore} → Life s b t → Step t u → Life s b u
  then_emptied : {b : Bool} {t : BillingStore} → Life s b t → t.file ≡ none → Life s true memory

Life-Reach : {s t : BillingStore} {b : Bool} → Life s b t → b ≡ false → Reach s t
Life-Reach begin h = Reach.here
Life-Reach (then_step l step) h = Reach.then_step (Life-Reach l h) step
Life-Reach (then_emptied l e) h = absurd (ground (arith, h))

-- a store that has a file keeps one
abbrev HasFile : BillingStore → Type 0
HasFile s = (f : PersistedBillingState) × (s.file ≡ some f)

HasFile-persist :
    (written : Bool) (f next : PersistedBillingState) (w : WebhookApplyResult)
    → HasFile (persist_locked written (some f) next w).0
HasFile-persist true f next w = (next, refl)
HasFile-persist false f next w = (f, refl)

HasFile-webhook :
    (written : Bool) (event : Value) (now : ℕ) (s : BillingStore)
    → HasFile s
    → HasFile (apply_test_webhook written event now s).0
HasFile-webhook written event now s (f, h) = elim (webhook-cases written event now s) [
  | inl same ↦ subst HasFile (sym same) (f, h)
  | inr (id, next, r, w, c, q) ↦ subst HasFile (sym (ap (λ p. p.0) q)) (
      subst
        (λ file.
          HasFile
            (persist_locked written file (record next { events = insert id r next.events }) w).0)
        (sym h) (HasFile-persist written f (record next { events = insert id r next.events }) w))
]

HasFile-Step : {s t : BillingStore} → Step s t → HasFile s → HasFile t
HasFile-Step (webhook written event now s t e) h =
    subst HasFile (sym e) (HasFile-webhook written event now s h)
HasFile-Step (restart s t f e o) h = subst HasFile (sym (open_store-eq-ok f t o)) (f, refl)

HasFile-Life : {s t : BillingStore} {b : Bool} → Life s b t → HasFile s → HasFile t × (b ≡ false)
HasFile-Life begin h = (h, refl)
HasFile-Life (then_step l step) h =
    let (held, kept) = HasFile-Life l h in (HasFile-Step step held, kept)
HasFile-Life (then_emptied l e) h =
    let ((f, held), _) = HasFile-Life l h in absurd (ground (arith, e, held))

-- A restart of a store that has a file keeps what it has processed: an event that was answered as new
-- is never applied again. After any further events, written or not, and any restarts, an event with
-- its id is answered as a duplicate and changes nothing; or the store has no file, and was emptied by
-- a restart since then.
pub processed_once :
    (written again emptied : Bool) (event repeated : Value) (id name name' : String) (now later : ℕ)
    (s t : BillingStore) (w : WebhookApplyResult)
    → event_names event ≡ ok (id, name)
    → event_names repeated ≡ ok (id, name')
    → (apply_test_webhook written event now s).1 ≡ ok w
    → w.duplicate ≡ false
    → Life (apply_test_webhook written event now s).0 emptied t
    → IsDuplicate t (apply_test_webhook again repeated later t)
      ⊎ ((s.file ≡ none) × (emptied ≡ true))
processed_once written again emptied event repeated id name name' now later s t w e e' h fresh
      lived =
    elim (Bool-cases emptied) [
      | inr b ↦
          let recorded =
            Reach-Holds (IsRecorded id) (kept-IsRecorded id) (Life-Reach lived b)
              (applied-IsRecorded written event id name now s w e h fresh) in
          inl (IsDuplicate-answer again repeated id name' later t e' recorded.in_process)
      | inl b ↦ elim (Option-cases s.file) [
        | inl no_file ↦ inr (no_file, b)
        | inr has ↦
            let (_, kept) = HasFile-Life lived (HasFile-webhook written event now s has) in
            absurd (ground (arith, b, kept))
      ]
    ]

-- Where a new event cannot be written, the sender gets an error and the file stays as it was. A second
-- try is then answered as a duplicate, and it changes nothing either, the file included.
pub unwritten_then-IsDuplicate :
    (again : Bool) (event : Value) (id name : String) (now later : ℕ) (s : BillingStore)
    (f after : PersistedBillingState) (v : WebhookApplyResult)
    → s.file ≡ some f
    → event_names event ≡ ok (id, name)
    → get id s.state.events ≡ none
    → apply_event_to_state s.state id name event now ≡ ok (after, v)
    → ((apply_test_webhook false event now s).1 ≡ err io)
      × ((apply_test_webhook false event now s).0.file ≡ some f)
      × IsDuplicate
          (apply_test_webhook false event now s).0
          (apply_test_webhook again event later (apply_test_webhook false event now s).0)
unfolding apply_test_webhook
unwritten_then-IsDuplicate again event id name now later s f after v file e q a =
    let marked : PersistedBillingState = record after {
      events = insert id (event_record v now) after.events;
    } in
    let run : apply_test_webhook false event now s
        ≡ (record { file = some f; state = marked }, err io) =
      rw (e, q, a, file) in
    (
      ap (λ x. x.1) run,
      ap (λ x. x.0.file) run,
      IsDuplicate-answer again event id name later (apply_test_webhook false event now s).0 e (
          subst (λ x. IsRecorded id x.0.state) (sym run)
            (inserted-IsRecorded id (event_record v now) after)),
    )
