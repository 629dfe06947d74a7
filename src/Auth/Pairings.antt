-- ===== src/Auth/Pairings.antt =====
-- `redeem_pairing` of crates/vor-auth/src/lib.rs: a pairing is redeemed once, and what becomes of one
-- that has expired.
use vor_commander.Base.{
  ℕ, String, ◌<◌, ◌≤◌, ◌≡◌, ◌≢◌, refl, ◌∙◌, Bool, true, Option, none, some, List, [], ◌∷◌, str_eq,
  eq_iff, leb, ◌||◌, Result, ok, err, reject_if, arith, inl, inr, Bool-cases, filter, Result-cases,
}
use vor_commander.Base.Text.{codes, is_empty, is_blank}
use vor_commander.Base.Map.{Map, get, insert, remove, get-remove}
use vor_commander.Auth.{
  GrantRecord, IssuedGrant, PairingRecord, PersistedState, GrantStore, AuthError, unauthorized,
  mutate_state, redeem_pairing, redeem_found, redeem_in, expiry_after, revoke_matching,
  revoke_found, prune_expired, prune_expired_pairings, live_pairing, checked_first,
  issue_for_tenant,
}
use vor_commander.Auth.Mutation.{mutate-eq-ok, mutate-file, mutate-err}

module _ (token_hash_hex : String → String) where
  -- No pairing is filed under `h`.
  unfoldable pub IsGone : String → GrantStore → Type 0
  IsGone h s = get h s.file.pairings ≡ none

  redeem_found-eq-ok :
      (state : PersistedState) (h actor_id token grant_id : String) (now : ℕ)
      (o : Option PairingRecord) (g : IssuedGrant)
      → (redeem_found token_hash_hex state h actor_id token grant_id now o).1 ≡ ok g
      → (pairing : PairingRecord) × (o ≡ some pairing)
        × (now < pairing.expires_at_unix_ms)
        × ((redeem_found token_hash_hex state h actor_id token grant_id now o).0.pairings
            ≡ remove h state.pairings)
        × ((redeem_found token_hash_hex state h actor_id token grant_id now o).0.grants
            ≡ insert (token_hash_hex token) g.record_of_grant state.grants)
        × (g.record_of_grant.actor_id ≡ actor_id)
  redeem_found-eq-ok state h actor_id token grant_id now none g e = cc
  redeem_found-eq-ok state h actor_id token grant_id now (some p) g e =
      elim (Bool-cases (leb p.expires_at_unix_ms now)) [
        | inl b ↦ absurd (ground (arith, rw b at e))
        | inr b ↦ elim (Result-cases (expiry_after now p.grant_ttl_ms)) [
          | inl (x, q) ↦
              let made = rw (b, q) at e in
              (
                p,
                refl,
                (ground (arith, b)),
                (rw (b, q)),
                (rw (b, q) (ground (arith, made))),
                (ground (arith, made)),
              )
          | inr (x, q) ↦ absurd (ground (arith, rw (b, q) at e))
        ]
      ]

get-filter-none :
    (p : String × PairingRecord → Bool) (k : String) (m : Map PairingRecord)
    → get k m ≡ none
    → get k (filter p m) ≡ none
unfolding get
get-filter-none p k [] h = refl
get-filter-none p k ((j, r) ∷ m) h = elim (Bool-cases (str_eq j k)) [
  | inl e ↦ absurd (ground (arith, rw e at h))
  | inr e ↦ elim (Bool-cases (p (j, r))) [
    | inl q ↦ rw (q, e) (get-filter-none p k m (rw e at h))
    | inr q ↦ rw q (get-filter-none p k m (rw e at h))
  ]
]

get-remove-none :
    (h k : String) (m : Map PairingRecord) → get k m ≡ none → get k (remove h m) ≡ none
get-remove-none h k m n = get-remove h k m ∙ ground (arith, n)

-- a call of the store that enters no pairing
pub data Step : Type 0 where
  redeem : Bool → String → String → String → String → ℕ → Step
  revoke : Bool → String → Option String → Step
  prune prune_pairings : Bool → ℕ → Step
  issue : Bool → String → String → List String → List String → ℕ → ℕ → String → String → Step

module _ (token_hash_hex : String → String) where
  unfoldable pub run_step : Step → GrantStore → GrantStore
  run_step (redeem w code actor_id token grant_id now) s =
      (redeem_pairing token_hash_hex w code actor_id token grant_id now s).0
  run_step (revoke w grant_id o) s = (revoke_matching token_hash_hex w grant_id o s).0
  run_step (prune w now) s = (prune_expired token_hash_hex w now s).0
  run_step (prune_pairings w now) s = (prune_expired_pairings token_hash_hex w now s).0
  run_step (issue w o actor_id workspaces scopes ttl now token grant_id) s =
      (issue_for_tenant token_hash_hex w o actor_id workspaces scopes ttl now token grant_id s).0

  unfoldable pub run_steps : List Step → GrantStore → GrantStore
  run_steps [] s = s
  run_steps (c ∷ cs) s = run_steps cs (run_step c s)

  mutate-IsGone {ℓ} :
      {T : Type ℓ} (w : Bool) (f : PersistedState → PersistedState × Result AuthError T)
      (s : GrantStore) (h : String)
      → IsGone token_hash_hex h s
      → get h (f s.file).0.pairings ≡ none
      → IsGone token_hash_hex h (mutate_state w f s).0
  unfolding IsGone
  mutate-IsGone w f s h gone changed = elim (mutate-file w f s) [
    | inl e ↦ rw e gone
    | inr e ↦ rw e changed
  ]

  checked-IsGone {ℓ κ} :
      {A : Type ℓ} {T : Type κ} (s : GrantStore) (m : Result AuthError A)
      (next : A → GrantStore × Result AuthError T) (h : String)
      → IsGone token_hash_hex h s
      → ((a : A) → IsGone token_hash_hex h (next a).0)
      → IsGone token_hash_hex h (checked_first s m next).0
  checked-IsGone s (err e) next h gone more = gone
  checked-IsGone s (ok a) next h gone more = more a

  redeem_found-gone :
      (state : PersistedState) (k actor_id token grant_id : String) (now : ℕ)
      (o : Option PairingRecord) (h : String)
      → get h state.pairings ≡ none
      → get h (redeem_found token_hash_hex state k actor_id token grant_id now o).0.pairings ≡ none
  redeem_found-gone state k actor_id token grant_id now none h n = n
  redeem_found-gone state k actor_id token grant_id now (some p) h n =
      elim (Bool-cases (leb p.expires_at_unix_ms now)) [
        | inl b ↦ rw b (get-remove-none k h state.pairings n)
        | inr b ↦ elim (Result-cases (expiry_after now p.grant_ttl_ms)) [
          | inl (x, q) ↦ rw (b, q) (get-remove-none k h state.pairings n)
          | inr (x, q) ↦ rw (b, q) n
        ]
      ]

  revoke_found-pairings :
      (state : PersistedState) (o : Option (String × GrantRecord))
      → (revoke_found state o).0.pairings ≡ state.pairings
  revoke_found-pairings state none = refl
  revoke_found-pairings state (some (h, r)) = refl

  step-IsGone :
      (c : Step) (s : GrantStore) (h : String)
      → IsGone token_hash_hex h s
      → IsGone token_hash_hex h (run_step c s)
  unfolding run_step redeem_pairing revoke_matching prune_expired prune_expired_pairings
      issue_for_tenant IsGone
  step-IsGone (redeem w code actor_id token grant_id now) s h gone =
      checked-IsGone s _ _ h gone (λ _.
        mutate-IsGone w _ s h gone
          (redeem_found-gone s.file (token_hash_hex code) actor_id token grant_id now _ h gone))
  step-IsGone (revoke w grant_id o) s h gone =
      mutate-IsGone w _ s h gone (rw (revoke_found-pairings s.file _) gone)
  step-IsGone (prune w now) s h gone = mutate-IsGone w _ s h gone gone
  step-IsGone (prune_pairings w now) s h gone =
      mutate-IsGone w _ s h gone (get-filter-none (live_pairing now) h s.file.pairings gone)
  step-IsGone (issue w o actor_id workspaces scopes ttl now token grant_id) s h gone =
      checked-IsGone s _ _ h gone (λ _. mutate-IsGone w _ s h gone gone)

  steps-IsGone :
      (cs : List Step) (s : GrantStore) (h : String)
      → IsGone token_hash_hex h s
      → IsGone token_hash_hex h (run_steps cs s)
  unfolding run_steps
  steps-IsGone [] s h gone = gone
  steps-IsGone (c ∷ cs) s h gone = steps-IsGone cs (run_step c s) h (step-IsGone c s h gone)

  checked-eq-ok {ℓ κ} :
      {A : Type ℓ} {T : Type κ} (s : GrantStore) (m : Result AuthError A)
      (next : A → GrantStore × Result AuthError T) {t : T}
      → (checked_first s m next).1 ≡ ok t
      → (a : A) × ((next a).1 ≡ ok t) × (checked_first s m next ≡ next a)
  checked-eq-ok s (err e) next h = cc
  checked-eq-ok s (ok a) next h = (a, h, refl)

  pub redeem-eq-ok :
      (w : Bool) (code actor_id token grant_id : String) (now : ℕ) (s : GrantStore)
      (g : IssuedGrant)
      → (redeem_pairing token_hash_hex w code actor_id token grant_id now s).1 ≡ ok g
      → (p : PairingRecord) × (get (token_hash_hex code) s.file.pairings ≡ some p)
        × (now < p.expires_at_unix_ms)
        × ((redeem_pairing token_hash_hex w code actor_id token grant_id now s).0.file.pairings
            ≡ remove (token_hash_hex code) s.file.pairings)
        × ((redeem_pairing token_hash_hex w code actor_id token grant_id now s).0.file.grants
            ≡ insert (token_hash_hex token) g.record_of_grant s.file.grants)
        × (g.record_of_grant.actor_id ≡ actor_id)
  unfolding redeem_pairing
  redeem-eq-ok w code actor_id token grant_id now s g h =
      let (_, h1, same) =
        checked-eq-ok s
          (reject_if (is_empty (codes code) || is_blank (codes actor_id)) unauthorized)
          (λ _. mutate_state w (redeem_in token_hash_hex code actor_id token grant_id now) s) h in
      let (made, file) =
        mutate-eq-ok w (redeem_in token_hash_hex code actor_id token grant_id now) s h1 in
      let (p, found, live, pairings, grants, actor) =
        redeem_found-eq-ok token_hash_hex s.file (token_hash_hex code) actor_id token grant_id now _
          g made in
      (p, found, live, (rw (same, file) pairings), (rw (same, file) grants), actor)

  -- Once a pairing code is redeemed, it is not redeemed again, by whomever and whenever, after any
  -- calls of the store that enter no pairing and whatever of them fails.
  pub redeem_once :
      (w w' : Bool) (code actor_id other token token' grant_id grant_id' : String) (now later : ℕ)
      (s : GrantStore) (cs : List Step) (g g' : IssuedGrant)
      → (redeem_pairing token_hash_hex w code actor_id token grant_id now s).1 ≡ ok g
      → (redeem_pairing token_hash_hex w' code other token' grant_id' later
          (run_steps cs (redeem_pairing token_hash_hex w code actor_id token grant_id now s).0)).1
        ≢ ok g'
  unfolding IsGone
  redeem_once w w' code actor_id other token token' grant_id grant_id' now later s cs g g' h again =
      let (_, _, _, pairings, _, _) = redeem-eq-ok w code actor_id token grant_id now s g h in
      let gone : IsGone token_hash_hex (token_hash_hex code)
          (redeem_pairing token_hash_hex w code actor_id token grant_id now s).0 =
        rw pairings (
          get-remove (token_hash_hex code) (token_hash_hex code) s.file.pairings
          ∙ ground (arith, eq_iff (token_hash_hex code) (token_hash_hex code))) in
      let (p, found, _, _, _, _) =
        redeem-eq-ok w' code other token' grant_id' later
          (run_steps cs (redeem_pairing token_hash_hex w code actor_id token grant_id now s).0) g'
          again in
      let still : get (token_hash_hex code)
            (run_steps cs
              (redeem_pairing token_hash_hex w code actor_id token grant_id now s).0).file.pairings
          ≡ none =
        steps-IsGone cs _ (token_hash_hex code) gone in
      ground (arith, found, still)

  redeem_keeps_file :
      (w : Bool) (code actor_id token grant_id : String) (now : ℕ) (s : GrantStore)
      (p : PairingRecord)
      → get (token_hash_hex code) s.file.pairings ≡ some p
      → p.expires_at_unix_ms ≤ now
      → (redeem_pairing token_hash_hex w code actor_id token grant_id now s).0.file ≡ s.file
  unfolding redeem_pairing
  redeem_keeps_file w code actor_id token grant_id now s p found past =
      let late : leb p.expires_at_unix_ms now ≡ true = ground (arith, past) in
      let refused : (redeem_in token_hash_hex code actor_id token grant_id now s.file).1
          ≡ err unauthorized =
        rw (found, late) in
      elim (Bool-cases (is_empty (codes code) || is_blank (codes actor_id))) [
        | inl c ↦ rw c
        | inr c ↦ rw c (
            mutate-err w (redeem_in token_hash_hex code actor_id token grant_id now) s unauthorized
              refused)
      ]

  -- A pairing that has expired is refused, and it stays in the file: its removal is part of a change
  -- that is dropped.
  pub redeem_keeps_expired :
      (w : Bool) (code actor_id token grant_id : String) (now : ℕ) (s : GrantStore)
      (p : PairingRecord)
      → get (token_hash_hex code) s.file.pairings ≡ some p
      → p.expires_at_unix_ms ≤ now
      → ((redeem_pairing token_hash_hex w code actor_id token grant_id now s).0.file ≡ s.file)
        × ((g : IssuedGrant)
            → (redeem_pairing token_hash_hex w code actor_id token grant_id now s).1 ≢ ok g)
  redeem_keeps_expired w code actor_id token grant_id now s p found past = (
    redeem_keeps_file w code actor_id token grant_id now s p found past,
    λ g h.
        let (q, same, live, _, _, _) = redeem-eq-ok w code actor_id token grant_id now s g h in
        ground (arith, found, same, live, past),
  )
