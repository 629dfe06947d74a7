-- ===== src/Auth.antt =====
-- `GrantStore` of crates/vor-auth/src/lib.rs: grants, pairings and OAuth clients. Random values
-- are arguments, and the hash of a token is the parameter `token_hash_hex`.
pub mod Grants
pub mod Mutation
pub mod Pairings
pub mod Lockout
use vor_commander.Base.{
  ℕ, String, ◌+◌, ◌^◌, ◌-◌, Bool, true, false, not, Option, none, some, List, [], ◌∷◌, str_eq, leb,
  ltb, ◌==◌, ◌&&◌, ◌||◌, Result, ok, err, ok_or, reject_if, map_err, ◌>>=◌, ◌>>◌, length,
  if◌then◌else◌, any, filter,
}
use vor_commander.Base.Text.{Text, codes, byte_len, is_blank, is_empty, is_control}
use vor_commander.Base.Map.{Map, get, insert, remove}

-- A `BTreeSet<String>` is the list of its elements.
abbrev pub contains : List String → String → Bool
contains set s = any (str_eq s) set

pub record GrantRecord : Type 0 where
  pub grant_id : String
  pub organization_id : String
  pub actor_id : String
  pub workspace_ids : List String
  pub scopes : List String
  pub issued_at_unix_ms : ℕ
  pub expires_at_unix_ms : ℕ
  pub revoked : Bool

pub record IssuedGrant : Type 0 where
  pub token : String
  pub record_of_grant : GrantRecord

pub record PairingRecord : Type 0 where
  pub pairing_id : String
  pub scopes : List String
  pub created_at_unix_ms : ℕ
  pub expires_at_unix_ms : ℕ
  pub grant_ttl_ms : ℕ

pub record OauthClientRecord : Type 0 where
  pub redirect_uris : List String
  pub client_name : String
  pub registered_at_unix_ms : ℕ

pub record PersistedState : Type 0 where
  pub version : ℕ
  pub device_id : String
  pub grants : Map GrantRecord
  pub pairings : Map PairingRecord
  pub oauth_clients : Map OauthClientRecord

-- what the file holds, and what the process holds
pub record GrantStore : Type 0 where
  pub file : PersistedState
  pub state : PersistedState

pub data AuthError : Type 0 where
  unauthorized invalid_ttl invalid_actor invalid_tenant invalid_state no_scopes io : AuthError
  insufficient_scope : String → AuthError

unfoldable pub validate_id : String → Result AuthError (Unit {0})
validate_id value =
    reject_if
      (is_blank (codes value) || any is_control (codes value) || ltb 256 (byte_len (codes value)))
      invalid_tenant

abbrev pub as_actor : Result AuthError (Unit {0}) → Result AuthError (Unit {0})
as_actor (ok u) = ok u
as_actor (err e) = err invalid_actor

-- `for id in ids { validate_id(id)? }`
unfoldable pub validate_ids : List String → Result AuthError (Unit {0})
validate_ids [] = ok tt
validate_ids (i ∷ is) = do validate_id i; validate_ids is

unfoldable pub validate_grants : Map GrantRecord → Result AuthError (Unit {0})
validate_grants [] = ok tt
validate_grants ((h, r) ∷ m) = do
  validate_id r.organization_id
  as_actor (validate_id r.actor_id)
  validate_ids r.workspace_ids
  validate_grants m

unfoldable pub validate_persisted_state : PersistedState → Result AuthError (Unit {0})
validate_persisted_state state = do
  reject_if (not (state.version == 1) || is_empty (codes state.device_id)) invalid_state
  validate_grants state.grants

-- `refresh_grant_state`, with what is then held
unfoldable pub refresh : GrantStore → Result AuthError GrantStore
refresh s = do validate_persisted_state s.file; ok (record { file = s.file; state = s.file })

-- The end of `mutate_state`: the changed copy is kept where the closure succeeds and is written.
abbrev pub keep {ℓ} :
    {T : Type ℓ}
    → Bool
    → GrantStore
    → PersistedState × Result AuthError T
    → GrantStore × Result AuthError T
keep written s (next, err e) = (s, err e)
keep true s (next, ok t) = (record { file = next; state = next }, ok t)
keep false s (next, ok t) = (s, err io)

abbrev pub mutate_refreshed {ℓ} :
    {T : Type ℓ}
    → Bool
    → (PersistedState → PersistedState × Result AuthError T)
    → GrantStore
    → Result AuthError GrantStore
    → GrantStore × Result AuthError T
mutate_refreshed written mutate s (err e) = (s, err e)
mutate_refreshed written mutate s (ok r) = keep written r (mutate r.state)

unfoldable pub mutate_state {ℓ} :
    {T : Type ℓ}
    → Bool
    → (PersistedState → PersistedState × Result AuthError T)
    → GrantStore
    → GrantStore × Result AuthError T
mutate_state written mutate s = mutate_refreshed written mutate s (refresh s)

-- the checks before `mutate_state`
abbrev pub checked_first {ℓ κ} :
    {A : Type ℓ} {T : Type κ}
    → GrantStore
    → Result AuthError A
    → (A → GrantStore × Result AuthError T)
    → GrantStore × Result AuthError T
checked_first s (err e) next = (s, err e)
checked_first s (ok a) next = next a

-- `checked_add` of a `u64`
abbrev pub expiry_after : ℕ → ℕ → Result AuthError ℕ
expiry_after now ttl = if leb (2 ^ 64) (now + ttl) then err invalid_ttl else ok (now + ttl)

abbrev pub named : List String → List String
named = filter (λ s. not (is_blank (codes s)))

-- The first grant, in the order of the map, that `p` holds of.
abbrev pub find_grant : (GrantRecord → Bool) → Map GrantRecord → Option (String × GrantRecord)
find_grant p [] = none
find_grant p ((h, r) ∷ m) = let rest = find_grant p m in if p r then some (h, r) else rest

abbrev pub is_grant : String → Option String → GrantRecord → Bool
is_grant grant_id none r = str_eq r.grant_id grant_id
is_grant grant_id (some o) r = str_eq r.grant_id grant_id && str_eq r.organization_id o

abbrev pub revoke_found :
    PersistedState → Option (String × GrantRecord) → PersistedState × Result AuthError Bool
revoke_found state none = (state, ok false)
revoke_found state (some (h, r)) =
    (record state { grants = insert h (record r { revoked = true }) state.grants }, ok true)

abbrev pub live_grant : ℕ → String × GrantRecord → Bool
live_grant now (h, r) = ltb now r.expires_at_unix_ms && not r.revoked

abbrev pub live_pairing : ℕ → String × PairingRecord → Bool
live_pairing now (h, r) = ltb now r.expires_at_unix_ms

module _ (token_hash_hex : String → String) where
  abbrev pub usable : String → ℕ → GrantRecord → Result AuthError GrantRecord
  usable required_scope now r = do
    reject_if (r.revoked || leb r.expires_at_unix_ms now) unauthorized
    reject_if (not (contains r.scopes required_scope) && not (contains r.scopes "*"))
        (insufficient_scope required_scope)
    ok r

  unfoldable pub validate : String → String → ℕ → GrantStore → Result AuthError GrantRecord
  validate token required_scope now s = do
    reject_if (is_empty (codes token) || is_empty (codes required_scope)) unauthorized
    fresh ← refresh s
    r ← ok_or (get (token_hash_hex token) fresh.state.grants) unauthorized
    usable required_scope now r

  abbrev pub is_in_workspace : Option String → GrantRecord → Bool
  is_in_workspace none r = true
  is_in_workspace (some w) r = contains r.workspace_ids w

  unfoldable pub validate_for_tenant :
      String → String → String → Option String → ℕ → GrantStore → Result AuthError GrantRecord
  validate_for_tenant token required_scope organization_id workspace_id now s = do
    r ← validate token required_scope now s
    reject_if (not (str_eq r.organization_id organization_id)) unauthorized
    reject_if (not (is_in_workspace workspace_id r)) unauthorized
    ok r

  abbrev pub redeem_live :
      PersistedState
      → String
      → String
      → String
      → String
      → ℕ
      → PairingRecord
      → Result AuthError ℕ
      → PersistedState × Result AuthError IssuedGrant
  redeem_live state h actor_id token grant_id now pairing (err e) = (state, err e)
  redeem_live state h actor_id token grant_id now pairing (ok expires) =
      let r : GrantRecord = record {
        grant_id = grant_id;
        organization_id = "local";
        actor_id = actor_id;
        workspace_ids = [];
        scopes = pairing.scopes;
        issued_at_unix_ms = now;
        expires_at_unix_ms = expires;
        revoked = false;
      } in
      (
        record state {
          pairings = remove h state.pairings;
          grants = insert (token_hash_hex token) r state.grants;
        },
        ok (record { token = token; record_of_grant = r }),
      )

  abbrev pub redeem_found :
      PersistedState
      → String
      → String
      → String
      → String
      → ℕ
      → Option PairingRecord
      → PersistedState × Result AuthError IssuedGrant
  redeem_found state h actor_id token grant_id now none = (state, err unauthorized)
  redeem_found state h actor_id token grant_id now (some pairing) =
      if leb pairing.expires_at_unix_ms now
      then (record state { pairings = remove h state.pairings }, err unauthorized)
      else redeem_live state h actor_id token grant_id now pairing
          (expiry_after now pairing.grant_ttl_ms)

  abbrev pub redeem_in :
      String
      → String
      → String
      → String
      → ℕ
      → PersistedState
      → PersistedState × Result AuthError IssuedGrant
  redeem_in code actor_id token grant_id now state =
      redeem_found state (token_hash_hex code) actor_id token grant_id now
        (get (token_hash_hex code) state.pairings)

  unfoldable pub redeem_pairing :
      Bool
      → String
      → String
      → String
      → String
      → ℕ
      → GrantStore
      → GrantStore × Result AuthError IssuedGrant
  redeem_pairing written code actor_id token grant_id now s =
      checked_first s (reject_if (is_empty (codes code) || is_blank (codes actor_id)) unauthorized)
        (λ _. mutate_state written (redeem_in code actor_id token grant_id now) s)

  unfoldable pub revoke_matching :
      Bool → String → Option String → GrantStore → GrantStore × Result AuthError Bool
  revoke_matching written grant_id organization_id s =
      mutate_state written
        (λ state. revoke_found state (find_grant (is_grant grant_id organization_id) state.grants))
        s

  unfoldable pub prune_expired : Bool → ℕ → GrantStore → GrantStore × Result AuthError ℕ
  prune_expired written now s =
      mutate_state written
        (λ state.
          let kept = filter (live_grant now) state.grants in
          (record state { grants = kept }, ok (length state.grants - length kept)))
        s

  unfoldable pub prune_expired_pairings : Bool → ℕ → GrantStore → GrantStore × Result AuthError ℕ
  prune_expired_pairings written now s =
      mutate_state written
        (λ state.
          let kept = filter (live_pairing now) state.pairings in
          (record state { pairings = kept }, ok (length state.pairings - length kept)))
        s

  abbrev pub grant_fields : String → String → List String → List String → ℕ → ℕ → Result AuthError ℕ
  grant_fields organization_id actor_id workspace_ids scopes ttl_ms now = do
    reject_if (ttl_ms == 0) invalid_ttl
    validate_id organization_id
    as_actor (validate_id actor_id)
    validate_ids (named workspace_ids)
    reject_if (is_empty (named scopes)) no_scopes
    expiry_after now ttl_ms

  unfoldable pub issue_for_tenant :
      Bool
      → String
      → String
      → List String
      → List String
      → ℕ
      → ℕ
      → String
      → String
      → GrantStore
      → GrantStore × Result AuthError IssuedGrant
  issue_for_tenant written organization_id actor_id workspace_ids scopes ttl_ms now token grant_id
        s =
      checked_first s (grant_fields organization_id actor_id workspace_ids scopes ttl_ms now)
        (λ expires.
          let r : GrantRecord = record {
            grant_id = grant_id;
            organization_id = organization_id;
            actor_id = actor_id;
            workspace_ids = named workspace_ids;
            scopes = named scopes;
            issued_at_unix_ms = now;
            expires_at_unix_ms = expires;
            revoked = false;
          } in
          mutate_state written
            (λ state. (
              record state { grants = insert (token_hash_hex token) r state.grants },
              ok (record { token = token; record_of_grant = r }),
            ))
            s)

  unfoldable pub revoke : Bool → String → GrantStore → GrantStore × Result AuthError Bool
  revoke written grant_id s = revoke_matching written grant_id none s

  abbrev pub pairing_fields : List String → ℕ → ℕ → ℕ → Result AuthError (List String × ℕ)
  pairing_fields scopes pairing_ttl_ms grant_ttl_ms now = do
    reject_if (pairing_ttl_ms == 0 || grant_ttl_ms == 0) invalid_ttl
    reject_if (is_empty (named scopes)) no_scopes
    expires ← expiry_after now pairing_ttl_ms
    ok (named scopes, expires)

  unfoldable pub create_pairing :
      Bool
      → List String
      → ℕ
      → ℕ
      → ℕ
      → String
      → String
      → GrantStore
      → GrantStore × Result AuthError PairingRecord
  create_pairing written scopes pairing_ttl_ms grant_ttl_ms now code pairing_id s =
      checked_first s (pairing_fields scopes pairing_ttl_ms grant_ttl_ms now) (λ (kept, expires).
        let r : PairingRecord = record {
          pairing_id = pairing_id;
          scopes = kept;
          created_at_unix_ms = now;
          expires_at_unix_ms = expires;
          grant_ttl_ms = grant_ttl_ms;
        } in
        mutate_state written
          (λ state.
            (record state { pairings = insert (token_hash_hex code) r state.pairings }, ok r))
          s)
