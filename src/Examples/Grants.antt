-- ===== src/Examples/Grants.antt =====
-- A store with one grant and one pairing.
use vor_commander.Base.{
  ℕ, String, ◌≡◌, ◌≢◌, ◌↔◌, refl, true, false, Option, none, some, List, [], ◌∷◌, ok, err, arith,
}
use vor_commander.Base.Map.{get, insert, remove}
use vor_commander.Base.Text.{is_blank, is_whitespace}
use vor_commander.Auth.{
  GrantRecord, PairingRecord, PersistedState, GrantStore, IssuedGrant, invalid_tenant, validate,
  refresh, validate_persisted_state, validate_grants, validate_ids, validate_id, mutate_state,
  revoke_matching, redeem_pairing, validate_for_tenant,
}
use vor_commander.Auth.Grants.{validate_iff, revoked_token_never, IsOpen}
use vor_commander.Auth.Pairings.{
  redeem_once, redeem_keeps_expired, run_steps, Step, redeem, revoke, prune, prune_pairings, issue,
}
use vor_commander.Auth.Lockout.{redeem_locks_out}

abbrev hash : String → String
hash token = token

abbrev grant : GrantRecord
grant = record {
  grant_id = "g1";
  organization_id = "org";
  actor_id = "alice";
  workspace_ids = "w1" ∷ [];
  scopes = "read" ∷ [];
  issued_at_unix_ms = 5;
  expires_at_unix_ms = 500;
  revoked = false;
}

abbrev pairing : PairingRecord
pairing = record {
  pairing_id = "p1";
  scopes = "read" ∷ [];
  created_at_unix_ms = 5;
  expires_at_unix_ms = 100;
  grant_ttl_ms = 1000;
}

abbrev state : PersistedState
state = record {
  version = 1;
  device_id = "pc";
  grants = ("t1", grant) ∷ [];
  pairings = ("c1", pairing) ∷ [];
  oauth_clients = [];
}

abbrev store : GrantStore
store = record { file = state; state = state }

validate_iff_example :
    (validate hash "t1" "read" 10 store ≡ ok grant) ↔ IsOpen hash "t1" "read" 10 store grant
validate_iff_example = validate_iff hash "t1" "read" 10 store grant

abbrev revoked_store : GrantStore
revoked_store =
    let left : PersistedState = record state {
      grants = ("t1", record grant { revoked = true }) ∷ [];
    } in
    record { file = left; state = left }

grant_revoked : revoke_matching hash true "g1" none store ≡ (revoked_store, ok true)
unfolding revoke_matching mutate_state refresh validate_persisted_state validate_grants validate_ids
    validate_id is_blank is_whitespace insert
grant_revoked = refl

revoked_token_never_example : validate hash "t1" "read" 10 revoked_store ≢ ok grant
revoked_token_never_example =
    revoked_token_never hash store revoked_store "g1" "t1" "read" none grant grant 10 refl
      grant_revoked

abbrev issued_to : String → IssuedGrant
issued_to actor_id = record {
  token = "t2";
  record_of_grant = record {
    grant_id = "g2";
    organization_id = "local";
    actor_id = actor_id;
    workspace_ids = [];
    scopes = "read" ∷ [];
    issued_at_unix_ms = 50;
    expires_at_unix_ms = 1050;
    revoked = false;
  };
}

bob_redeemed : (redeem_pairing hash true "c1" "bob" "t2" "g2" 50 store).1 ≡ ok (issued_to "bob")
unfolding redeem_pairing mutate_state refresh validate_persisted_state validate_grants validate_ids
    validate_id is_blank is_whitespace get insert remove
bob_redeemed = refl

abbrev between : List Step
between =
    redeem false "c1" "eve" "t3" "g3" 51
    ∷ revoke true "g1" (some "org")
    ∷ prune_pairings true 60
    ∷ prune true 60
    ∷ issue true "org" "dave" [] ("read" ∷ []) 10 61 "t4" "g4"
    ∷ []

redeem_once_example :
    (redeem_pairing hash true "c1" "carol" "t5" "g5" 70
      (run_steps hash between (redeem_pairing hash true "c1" "bob" "t2" "g2" 50 store).0)).1
    ≢ ok (issued_to "carol")
redeem_once_example =
    redeem_once hash true true "c1" "bob" "carol" "t2" "t5" "g2" "g5" 50 70 store between
      (issued_to "bob") (issued_to "carol") bob_redeemed

pairing_on_file : get "c1" state.pairings ≡ some pairing
unfolding get
pairing_on_file = refl

redeem_keeps_expired_example :
    ((redeem_pairing hash true "c1" "bob" "t2" "g2" 100 store).0.file ≡ state)
    × ((g : IssuedGrant) → (redeem_pairing hash true "c1" "bob" "t2" "g2" 100 store).1 ≢ ok g)
redeem_keeps_expired_example =
    redeem_keeps_expired hash true "c1" "bob" "t2" "g2" 100 store pairing pairing_on_file
      (ground arith)

-- an actor whose id has a control character
bell_redeemed :
    (redeem_pairing hash true "c1" "bob\0" "t2" "g2" 50 store).1 ≡ ok (issued_to "bob\0")
unfolding redeem_pairing mutate_state refresh validate_persisted_state validate_grants validate_ids
    validate_id is_blank is_whitespace get insert remove
bell_redeemed = refl

bell_refused : validate_id "bob\0" ≡ err invalid_tenant
unfolding validate_id is_blank is_whitespace
bell_refused = refl

abbrev answer : ℕ
answer = 7

abbrev locked_out : GrantStore
locked_out = (redeem_pairing hash true "c1" "bob\0" "t2" "g2" 50 store).0

redeem_locks_out_example :
    ((mutate_state true (λ state. (state, ok answer)) locked_out).1 ≢ ok answer)
    × ((presented scope : String) (later : ℕ) (r : GrantRecord)
        → validate hash presented scope later locked_out ≢ ok r)
    × ((presented scope organization_id : String) (workspace_id : Option String) (later : ℕ)
          (r : GrantRecord)
        → validate_for_tenant hash presented scope organization_id workspace_id later locked_out
          ≢ ok r)
redeem_locks_out_example =
    redeem_locks_out hash true true "c1" "bob\0" "t2" "g2" 50 store (issued_to "bob\0")
      invalid_tenant (λ state. (state, ok answer)) answer bell_redeemed bell_refused
