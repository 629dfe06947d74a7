-- ===== src/Relay/Calls.antt =====
-- What each part of a call in apps/vor-relay/src/lib.rs keeps of the map of pending results.
use vor_commander.Base.{
  ℕ, String, ltb, ◌≡◌, ◌≢◌, refl, sym, ap, ◌∙◌, subst, true, false, Option, none, some, ok, err,
  inl, inr, arith, Bool-cases,
}
use vor_commander.Dispatch.State.{ActionResult}
use vor_commander.Relay.Pending.{
  pending_at, insert_pending, remove_pending, contains_key, same_key, same_key→≡, pending-insert,
}
use vor_commander.Relay.Hub.{
  RelayError, RelayCall, Relay, Stage, admitted, sending, returned, set_call, return_with,
  claim_key, is_listening, send_action, channel_capacity, push_frame, failed, waiting,
  device_offline, duplicate_request, clean_up, take_result, send_result, complete_at,
}
use vor_commander.Relay.Steps.{IsDropped}
use vor_commander.Relay.Matching.{
  is_open, IsTidy, IsHonest, IsHonestAt, IsMatched, IsTidy-set_free, IsTidy-set_open, IsTidy-remove,
  IsDropped-remove, set-IsHonest,
}

pub clash {ℓ} : {A : Type ℓ} → true ≡ false → A
clash h = cc

module _ (P : String → ActionResult → Type 0) where
  pub IsHonest-at :
      (n : ℕ) (c : RelayCall) (s : Relay) → IsMatched P s → s.calls n ≡ some c → IsHonest P c
  IsHonest-at n c s h at = subst (IsHonestAt P) at (h.1 n)

  -- no entry is for a call that has not claimed its key, or has returned
  pub closed-IsDropped :
      (n : ℕ) (c : RelayCall) (s : Relay)
      → IsTidy s
      → s.calls n ≡ some c
      → is_open c.stage ≡ false
      → IsDropped n s
  closed-IsDropped n c s tidy at closed k h =
      let (d, at', _, opened, _) = tidy k n h in
      let call : c ≡ d = ground (arith, at, at') in
      ground (arith, closed, opened, ap (λ x. is_open x.stage) call)

  received-IsDropped :
      (n : ℕ) (c : RelayCall) (s : Relay) (r : ActionResult)
      → IsTidy s
      → s.calls n ≡ some c
      → c.received ≡ some r
      → IsDropped n s
  received-IsDropped n c s r tidy at received k h =
      let (d, at', _, _, none_yet) = tidy k n h in
      let call : c ≡ d = ground (arith, at, at') in
      ground (arith, received, none_yet, ap (λ x. x.received) call)

  -- a call that changes no more than its stage, to one that is open
  pub opened-IsMatched :
      (n : ℕ) (c : RelayCall) (st : Stage) (s : Relay)
      → s.calls n ≡ some c
      → is_open st ≡ true
      → IsMatched P s
      → IsMatched P (set_call n (record c { stage = st }) s)
  opened-IsMatched n c st s at opened h = (
    IsTidy-set_open n c (record c { stage = st }) s at refl opened refl h.0,
    set-IsHonest P n (record c { stage = st }) s
        (
          (IsHonest-at n c s h at).0,
          (λ r e. clash (sym opened ∙ ap is_open e)),
          (λ e. clash (sym opened ∙ ap is_open e)),
        )
        h.1,
  )

  inserted-IsTidy :
      (n : ℕ) (c : RelayCall) (s : Relay)
      → s.calls n ≡ some c
      → c.stage ≡ admitted
      → IsMatched P s
      → IsTidy (
          set_call n
            (record c { stage = sending })
            (record s { pending = insert_pending c.key n s.pending }))
  inserted-IsTidy n c s at stage h k m entry = elim (Bool-cases (same_key c.key k)) [
    | inl e ↦
        let same : m ≡ n = ground (arith, entry, pending-insert c.key k n s.pending, e) in
        (
          record c { stage = sending },
          rw same (ground arith),
          same_key→≡ c.key k e,
          refl,
          (IsHonest-at n c s h at).2 stage,
        )
    | inr e ↦
        IsTidy-set_free n (record c { stage = sending }) s
          (closed-IsDropped n c s h.0 at (ap is_open stage)) h.0 k m
          (ground (arith, entry, pending-insert c.key k n s.pending, e))
  ]

  pub claim-IsMatched :
      (n : ℕ) (c : RelayCall) (s : Relay)
      → s.calls n ≡ some c
      → c.stage ≡ admitted
      → IsMatched P s
      → IsMatched P (claim_key n c s)
  unfolding claim_key
  claim-IsMatched n c s at stage h = elim (Bool-cases (contains_key c.key s.pending)) [
    | inl e ↦ rw e (
      IsTidy-set_free n (return_with (err duplicate_request) c) s
          (closed-IsDropped n c s h.0 at (ap is_open stage)) h.0,
      set-IsHonest P n (return_with (err duplicate_request) c) s
          ((IsHonest-at n c s h at).0, (λ r q. cc), (λ q. cc)) h.1,
    )
    | inr e ↦ rw e (
      inserted-IsTidy n c s at stage h,
      set-IsHonest P n (record c { stage = sending }) s
          ((IsHonest-at n c s h at).0, (λ r q. cc), (λ q. cc)) h.1,
    )
  ]

  pub clean-IsMatched :
      (n : ℕ) (c : RelayCall) (e : RelayError) (s : Relay)
      → s.calls n ≡ some c
      → IsMatched P s
      → IsMatched P (clean_up n c e s)
  unfolding clean_up
  clean-IsMatched n c e s at h = (
    IsTidy-set_free n (return_with (err e) c)
        (record s { pending = remove_pending c.key s.pending }) (IsDropped-remove n c s at h.0)
        (IsTidy-remove c.key s h.0),
    set-IsHonest P n (return_with (err e) c) (record s { pending = remove_pending c.key s.pending })
        ((IsHonest-at n c s h at).0, (λ r q. cc), (λ q. cc)) h.1,
  )

  pub take-IsMatched :
      (n : ℕ) (c : RelayCall) (r : ActionResult) (s : Relay)
      → s.calls n ≡ some c
      → c.received ≡ some r
      → IsMatched P s
      → IsMatched P (take_result n c r s)
  unfolding take_result
  take-IsMatched n c r s at received h = (
    IsTidy-set_free n (return_with (ok r) c) s (received-IsDropped n c s r h.0 at received) h.0,
    set-IsHonest P n (return_with (ok r) c) s
        ((IsHonest-at n c s h at).0, (λ r' q. received ∙ ground (arith, q)), (λ q. cc)) h.1,
  )

  -- an open call is neither admitted only nor returned
  opened-not_returned :
      (c : RelayCall)
      → is_open c.stage ≡ true
      → ((r : ActionResult) → c.stage ≢ returned (ok r)) × (c.stage ≢ admitted)
  opened-not_returned c opened =
      ((λ r e. clash (sym opened ∙ ap is_open e)), (λ e. clash (sym opened ∙ ap is_open e)))

  delivered-IsMatched :
      (device_id : String) (r : ActionResult) (n : ℕ) (c : RelayCall) (s : Relay)
      → IsDropped n s
      → c.key ≡ (device_id, r.request_id)
      → P device_id r
      → ((r' : ActionResult) → c.stage ≢ returned (ok r')) × (c.stage ≢ admitted)
      → IsMatched P s
      → IsMatched P (send_result r n (some c) s).0
  delivered-IsMatched device_id r n c s dropped key is_sent unreturned h =
      elim (Bool-cases (is_listening c)) [
        | inl e ↦ rw e (
          IsTidy-set_free n (record c { received = some r }) s dropped h.0,
          set-IsHonest P n (record c { received = some r }) s
              (
                (λ r' q.
                    let same : r ≡ r' = ground (arith, q) in
                    (
                      subst (λ x. P c.key.0 x) same
                          (subst (λ d. P d r) (sym (ap (λ k. k.0) key)) is_sent),
                      ap (λ x. x.request_id) (sym same) ∙ sym (ap (λ k. k.1) key),
                    )),
                (λ r' q. elim (unreturned.0 r' q) [ ]),
                (λ q. elim (unreturned.1 q) [ ]),
              )
              h.1,
        )
        | inr e ↦ rw e h
      ]

  pub complete_at-IsMatched :
      (device_id : String) (r : ActionResult) (found : Option ℕ) (s : Relay)
      → pending_at (device_id, r.request_id) s.pending ≡ found
      → P device_id r
      → IsMatched P s
      → IsMatched P (complete_at device_id r found s).0
  complete_at-IsMatched device_id r none s p is_sent h = h
  complete_at-IsMatched device_id r (some n) s p is_sent h =
      let (c, at, key, opened, none_yet) = h.0 (device_id, r.request_id) n p in
      let removed : Relay = record s {
        pending = remove_pending (device_id, r.request_id) s.pending;
      } in
      let tidy = IsTidy-remove (device_id, r.request_id) s h.0 in
      subst (λ o. IsMatched P (send_result r n o removed).0) (sym at)
        (delivered-IsMatched device_id r n c removed
          (subst (λ k. IsDropped n (record s { pending = remove_pending k s.pending })) key
            (IsDropped-remove n c s at h.0))
          key is_sent (opened-not_returned c opened) (tidy, h.1))

  -- nor does a call lose anything where its frame has to wait
  pub send-IsMatched :
      (n : ℕ) (c : RelayCall) (s : Relay)
      → s.calls n ≡ some c
      → IsMatched P s
      → IsMatched P (send_action n c s)
  unfolding send_action
  send-IsMatched n c s at h = elim (Bool-cases (s.channels c.session.sender).closed) [
    | inl e ↦ rw e (opened-IsMatched n c (failed device_offline) s at refl h)
    | inr e ↦ elim (Bool-cases (ltb (s.channels c.session.sender).queued channel_capacity)) [
      | inl room ↦
          rw (e, room) (opened-IsMatched n c waiting (push_frame c.session.sender s) at refl h)
      | inr full ↦ rw (e, full) h
    ]
  ]
