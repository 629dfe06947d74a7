-- ===== src/Auth/Lockout.antt =====
-- What `redeem_pairing` of crates/vor-auth/src/lib.rs can write that no later call can read.
use vor_commander.Base.{
  ℕ, String, ◌≡◌, ◌≢◌, refl, Option, Bool, not, [], ◌∷◌, str_eq, ◌==◌, ◌||◌, Result, ok, err, arith,
  inl, inr, Bool-cases, >>=-eq-ok, reject_if-eq-ok,
}
use vor_commander.Base.Text.{codes, is_empty}
use vor_commander.Base.Map.{Map, insert}
use vor_commander.Auth.{
  GrantRecord, IssuedGrant, PersistedState, GrantStore, AuthError, invalid_state,
  validate_persisted_state, mutate_state, redeem_pairing, validate_id, validate_grants, as_actor,
  validate_ids, validate, validate_for_tenant, refresh, unauthorized,
}
use vor_commander.Auth.Mutation.{mutate-validated}
use vor_commander.Auth.Pairings.{redeem-eq-ok}

as_actor-eq-ok : (m : Result AuthError (Unit {0})) → as_actor m ≡ ok tt → m ≡ ok tt
as_actor-eq-ok (ok u) h = refl
as_actor-eq-ok (err e) h = cc

validate_grants-eq-ok :
    (j : String) (q : GrantRecord) (m : Map GrantRecord)
    → validate_grants ((j, q) ∷ m) ≡ ok tt
    → (validate_id q.actor_id ≡ ok tt) × (validate_grants m ≡ ok tt)
unfolding validate_grants
validate_grants-eq-ok j q m h =
    let (_, _, h1) = >>=-eq-ok (validate_id q.organization_id) _ h in
    let (_, a, h2) = >>=-eq-ok (as_actor (validate_id q.actor_id)) _ h1 in
    let (_, _, h3) = >>=-eq-ok (validate_ids q.workspace_ids) _ h2 in (as_actor-eq-ok _ a, h3)

validate_grants-insert :
    (h : String) (r : GrantRecord) (m : Map GrantRecord) (e : AuthError)
    → validate_id r.actor_id ≡ err e
    → validate_grants (insert h r m) ≢ ok tt
unfolding insert
validate_grants-insert h r [] e bad good =
    ground (arith, bad, (validate_grants-eq-ok h r [] good).0)
validate_grants-insert h r ((j, q) ∷ m) e bad good = elim (Bool-cases (str_eq j h)) [
  | inl p ↦ ground (arith, bad, (validate_grants-eq-ok h r m (rw p at good)).0)
  | inr p ↦ validate_grants-insert h r m e bad (validate_grants-eq-ok j q _ (rw p at good)).1
]

validated-grants :
    (state : PersistedState)
    → validate_persisted_state state ≡ ok tt
    → validate_grants state.grants ≡ ok tt
unfolding validate_persisted_state
validated-grants state h =
    (reject_if-eq-ok (not (state.version == 1) || is_empty (codes state.device_id)) invalid_state _
      h).1

module _ (token_hash_hex : String → String) where
  validate-eq-ok :
      (token scope : String) (now : ℕ) (s : GrantStore) (r : GrantRecord)
      → validate token_hash_hex token scope now s ≡ ok r
      → validate_persisted_state s.file ≡ ok tt
  unfolding validate refresh
  validate-eq-ok token scope now s r h =
      let (_, h1) =
        reject_if-eq-ok (is_empty (codes token) || is_empty (codes scope)) unauthorized _ h in
      let (_, e, _) = >>=-eq-ok (refresh s) _ h1 in
      let (_, v, _) = >>=-eq-ok (validate_persisted_state s.file) _ e in v

  validate_for_tenant-eq-ok :
      (token scope organization_id : String) (workspace_id : Option String) (now : ℕ)
      (s : GrantStore) (r : GrantRecord)
      → validate_for_tenant token_hash_hex token scope organization_id workspace_id now s ≡ ok r
      → validate_persisted_state s.file ≡ ok tt
  unfolding validate_for_tenant
  validate_for_tenant-eq-ok token scope organization_id workspace_id now s r h =
      let (q, e, _) = >>=-eq-ok (validate token_hash_hex token scope now s) _ h in
      validate-eq-ok token scope now s q e

  redeemed-IsInvalid :
      (w : Bool) (code actor_id token grant_id : String) (now : ℕ) (s : GrantStore)
      (g : IssuedGrant) (e : AuthError)
      → (redeem_pairing token_hash_hex w code actor_id token grant_id now s).1 ≡ ok g
      → validate_id actor_id ≡ err e
      → validate_persisted_state
          (redeem_pairing token_hash_hex w code actor_id token grant_id now s).0.file
        ≢ ok tt
  redeemed-IsInvalid w code actor_id token grant_id now s g e h bad valid =
      let (_, _, _, _, grants, actor) =
        redeem-eq-ok token_hash_hex w code actor_id token grant_id now s g h in
      let refused : validate_id g.record_of_grant.actor_id ≡ err e = rw actor bad in
      validate_grants-insert (token_hash_hex token) g.record_of_grant s.file.grants e refused
        (rw grants at (validated-grants _ valid))

  -- Where a pairing is redeemed by an actor whose id `validate_id` refuses, and the code does not ask
  -- it, no call succeeds on the file that is left: no change through `mutate_state`, whatever it is to
  -- do, and no `validate` or `validate_for_tenant`, of whatever token, scope and tenant and at any
  -- time.
  pub redeem_locks_out {ℓ} :
      {T : Type ℓ} (w w' : Bool) (code actor_id token grant_id : String) (now : ℕ) (s : GrantStore)
      (g : IssuedGrant) (e : AuthError) (f : PersistedState → PersistedState × Result AuthError T)
      (t : T)
      → (redeem_pairing token_hash_hex w code actor_id token grant_id now s).1 ≡ ok g
      → validate_id actor_id ≡ err e
      → ((mutate_state w' f
            (redeem_pairing token_hash_hex w code actor_id token grant_id now s).0).1
          ≢ ok t)
        × ((presented scope : String) (later : ℕ) (r : GrantRecord)
            → validate token_hash_hex presented scope later
                (redeem_pairing token_hash_hex w code actor_id token grant_id now s).0
              ≢ ok r)
        × ((presented scope organization_id : String) (workspace_id : Option String) (later : ℕ)
              (r : GrantRecord)
            → validate_for_tenant token_hash_hex presented scope organization_id workspace_id later
                (redeem_pairing token_hash_hex w code actor_id token grant_id now s).0
              ≢ ok r)
  redeem_locks_out w w' code actor_id token grant_id now s g e f t h bad =
      let invalid = redeemed-IsInvalid w code actor_id token grant_id now s g e h bad in
      (
        (λ later. invalid (mutate-validated w' f _ later)),
        (λ presented scope later r k. invalid (validate-eq-ok presented scope later _ r k)),
        (λ presented scope organization_id workspace_id later r k.
            invalid
              (validate_for_tenant-eq-ok presented scope organization_id workspace_id later _ r k)),
      )
