-- ===== src/Auth/Grants.antt =====
-- `validate`, `revoke` and `redeem_pairing` of crates/vor-auth/src/lib.rs: which tokens are accepted.
use vor_commander.Base.{
  ℕ, String, ◌<◌, ◌≡◌, ◌≢◌, ◌↔◌, ◌⊎◌, ◌∙◌, ap, true, false, not, Option, some, eq_iff, leb, ◌&&◌,
  ◌||◌, ok, ok_or, arith, inl, inr, Bool-cases, Result-cases, >>=-eq-ok, reject_if-eq-ok,
  ok_or-eq-ok,
}
use vor_commander.Base.Text.{codes, is_empty}
use vor_commander.Base.Map.{get, insert, get-insert}
use vor_commander.Auth.{
  GrantRecord, GrantStore, unauthorized, insufficient_scope, contains, usable, validate, refresh,
  validate_persisted_state, mutate_state, find_grant, is_grant, revoke_matching,
}

module _ (token_hash_hex : String → String) where
  -- A grant on file that a token opens for a scope.
  pub record IsOpen (token required_scope : String) (now : ℕ) (s : GrantStore) (r : GrantRecord)
      : Type 0 where
    pub given : is_empty (codes token) ≡ false
    pub scope : is_empty (codes required_scope) ≡ false
    pub valid_file : validate_persisted_state s.file ≡ ok tt
    pub on_file : get (token_hash_hex token) s.file.grants ≡ some r
    pub live : r.revoked ≡ false
    pub in_time : now < r.expires_at_unix_ms
    pub in_scope : (contains r.scopes required_scope ≡ true) ⊎ (contains r.scopes "*" ≡ true)

  usable-eq-ok :
      (scope : String) (now : ℕ) (r q : GrantRecord)
      → usable token_hash_hex scope now r ≡ ok q
      → (r ≡ q)
        × (r.revoked ≡ false)
        × (now < r.expires_at_unix_ms)
        × ((contains r.scopes scope ≡ true) ⊎ (contains r.scopes "*" ≡ true))
  usable-eq-ok scope now r q h =
      let (a, h1) = reject_if-eq-ok (r.revoked || leb r.expires_at_unix_ms now) unauthorized _ h in
      let (b, h2) =
        reject_if-eq-ok (not (contains r.scopes scope) && not (contains r.scopes "*"))
          (insufficient_scope scope) _ h1 in
      (
        (ground (arith, h2)),
        (ground (arith, a)),
        (ground (arith, a)),
        (elim (Bool-cases (contains r.scopes scope)) [
          | inl p ↦ inl p
          | inr p ↦ inr (ground (arith, b, p))
        ]),
      )

  validate-IsOpen :
      (token scope : String) (now : ℕ) (s : GrantStore) (r : GrantRecord)
      → validate token_hash_hex token scope now s ≡ ok r
      → IsOpen token scope now s r
  unfolding validate refresh
  validate-IsOpen token scope now s r h =
      let (a, h1) =
        reject_if-eq-ok (is_empty (codes token) || is_empty (codes scope)) unauthorized _ h in
      let (fresh, b, h2) = >>=-eq-ok (refresh s) _ h1 in
      let (_, c, h3) = >>=-eq-ok (validate_persisted_state s.file) _ b in
      let (q, d, h4) =
        >>=-eq-ok (ok_or (get (token_hash_hex token) fresh.state.grants) unauthorized) _ h2 in
      let (same, live, time, scoped) = usable-eq-ok scope now q r h4 in
      let state : s.file ≡ fresh.state = ground (arith, h3) in
      record {
        given = ground (arith, a);
        scope = ground (arith, a);
        valid_file = c;
        on_file = rw state (ok_or-eq-ok _ _ d ∙ ap some same);
        live = rw (← same) live;
        in_time = rw (← same) time;
        in_scope = rw (← same) scoped;
      }

  IsOpen-validate :
      (token scope : String) (now : ℕ) (s : GrantStore) (r : GrantRecord)
      → IsOpen token scope now s r
      → validate token_hash_hex token scope now s ≡ ok r
  unfolding validate refresh
  IsOpen-validate token scope now s r o =
      let e : leb r.expires_at_unix_ms now ≡ false = ground (arith, o.in_time) in
      elim o.in_scope [
        | inl p ↦ rw (o.given, o.scope, o.valid_file, o.on_file, o.live, e, p)
        | inr p ↦
            let q : (not (contains r.scopes scope) && not (contains r.scopes "*")) ≡ false =
              ground (arith, p) in
            rw (o.given, o.scope, o.valid_file, o.on_file, o.live, e, q)
      ]

  -- A token is accepted exactly when it and the scope are not empty, the file is well formed and has
  -- a grant under the token's hash that is neither revoked nor expired and has the scope or `*`.
  pub validate_iff :
      (token scope : String) (now : ℕ) (s : GrantStore) (r : GrantRecord)
      → (validate token_hash_hex token scope now s ≡ ok r) ↔ IsOpen token scope now s r
  validate_iff token scope now s r =
      (validate-IsOpen token scope now s r, IsOpen-validate token scope now s r)

  -- After a grant is revoked, the token whose hash it is filed under is accepted for no scope and at
  -- no time.
  pub revoked_token_never :
      (s s' : GrantStore) (grant_id token scope : String) (organization_id : Option String)
      (r q : GrantRecord) (now : ℕ)
      → find_grant (is_grant grant_id organization_id) s.file.grants
        ≡ some (token_hash_hex token, r)
      → revoke_matching token_hash_hex true grant_id organization_id s ≡ (s', ok true)
      → validate token_hash_hex token scope now s' ≢ ok q
  unfolding revoke_matching mutate_state refresh
  revoked_token_never s s' grant_id token scope organization_id r q now found done accepted =
      let o = validate-IsOpen token scope now s' q accepted in
      elim (Result-cases (validate_persisted_state s.file)) [
        | inl (_, v) ↦
            let file : insert (token_hash_hex token) (record r { revoked = true }) s.file.grants
                ≡ s'.file.grants =
              ap (λ p. p.0.file.grants) (rw (v, found) at done) in
            let entry : get (token_hash_hex token) s'.file.grants
                ≡ some (record r { revoked = true }) =
              rw (← file) (
                get-insert (token_hash_hex token) (token_hash_hex token)
                  (record r { revoked = true }) s.file.grants
                ∙ ground (arith, eq_iff (token_hash_hex token) (token_hash_hex token))) in
            ground (arith, entry, o.on_file, o.live)
        | inr (_, v) ↦ absurd (ground (arith, ap (λ p. p.1) (rw v at done)))
      ]
