-- ===== src/Auth/Mutation.antt =====
-- `mutate_state` of crates/vor-auth/src/lib.rs: a change is kept whole, or not at all.
use vor_commander.Base.{
  ◌≡◌, ◌⊎◌, refl, ◌∙◌, ap, Bool, true, false, Result, ok, err, arith, inl, inr, Result-cases,
  >>=-eq-ok,
}
use vor_commander.Auth.{
  PersistedState, GrantStore, AuthError, refresh, validate_persisted_state, mutate_state, keep,
}

keep-eq-ok {ℓ} :
    {T : Type ℓ} (w : Bool) (s : GrantStore) (m : PersistedState × Result AuthError T) {t : T}
    → (keep w s m).1 ≡ ok t
    → (m.1 ≡ ok t) × ((keep w s m).0.file ≡ m.0)
keep-eq-ok w s (next, err e) h = cc
keep-eq-ok true s (next, ok t) h = (h, refl)
keep-eq-ok false s (next, ok t) h = cc

pub keep-file {ℓ} :
    {T : Type ℓ} (w : Bool) (s : GrantStore) (m : PersistedState × Result AuthError T)
    → ((keep w s m).0.file ≡ s.file) ⊎ ((keep w s m).0.file ≡ m.0)
keep-file w s (next, err e) = inl refl
keep-file true s (next, ok t) = inr refl
keep-file false s (next, ok t) = inl refl

refresh-eq-ok : (s r : GrantStore) → refresh s ≡ ok r → (r.file ≡ s.file) × (r.state ≡ s.file)
unfolding refresh
refresh-eq-ok s r h =
    let (_, _, e) = >>=-eq-ok (validate_persisted_state s.file) _ h in
    (ground (arith, e), ground (arith, e))

-- What `mutate_state` leaves in the file where it succeeds, and what it can leave there at all.
pub mutate-eq-ok {ℓ} :
    {T : Type ℓ} (w : Bool) (f : PersistedState → PersistedState × Result AuthError T)
    (s : GrantStore) {t : T}
    → (mutate_state w f s).1 ≡ ok t
    → ((f s.file).1 ≡ ok t) × ((mutate_state w f s).0.file ≡ (f s.file).0)
unfolding mutate_state
mutate-eq-ok w f s h = elim (Result-cases (refresh s)) [
  | inl (r, e) ↦
      let (_, held) = refresh-eq-ok s r e in
      let (a, b) = keep-eq-ok w r (f r.state) (rw e at h) in (rw (← held) a, rw (e, ← held) b)
  | inr (x, e) ↦ absurd (ground (arith, rw e at h))
]

pub mutate-file {ℓ} :
    {T : Type ℓ} (w : Bool) (f : PersistedState → PersistedState × Result AuthError T)
    (s : GrantStore)
    → ((mutate_state w f s).0.file ≡ s.file) ⊎ ((mutate_state w f s).0.file ≡ (f s.file).0)
unfolding mutate_state
mutate-file w f s = elim (Result-cases (refresh s)) [
  | inl (r, e) ↦
      let (file, held) = refresh-eq-ok s r e in
      elim (keep-file w r (f r.state)) [
        | inl a ↦ inl (rw e (a ∙ file))
        | inr a ↦ inr (rw (e, ← held) a)
      ]
  | inr (x, e) ↦ inl (rw e)
]

keep-err {ℓ} :
    {T : Type ℓ} (w : Bool) (s : GrantStore) (m : PersistedState × Result AuthError T)
    {e : AuthError}
    → m.1 ≡ err e
    → (keep w s m).0 ≡ s
keep-err w s (next, err e) h = refl
keep-err w s (next, ok t) h = cc

pub mutate-err {ℓ} :
    {T : Type ℓ} (w : Bool) (f : PersistedState → PersistedState × Result AuthError T)
    (s : GrantStore) (x : AuthError)
    → (f s.file).1 ≡ err x
    → (mutate_state w f s).0.file ≡ s.file
unfolding mutate_state
mutate-err w f s x h = elim (Result-cases (refresh s)) [
  | inl (r, e) ↦
      let (file, held) = refresh-eq-ok s r e in
      let refused : (f r.state).1 ≡ err x = rw held h in
      rw e (ap (λ y. y.file) (keep-err w r (f r.state) refused) ∙ file)
  | inr (_, e) ↦ rw e
]

pub mutate-validated {ℓ} :
    {T : Type ℓ} (w : Bool) (f : PersistedState → PersistedState × Result AuthError T)
    (s : GrantStore) {t : T}
    → (mutate_state w f s).1 ≡ ok t
    → validate_persisted_state s.file ≡ ok tt
unfolding mutate_state refresh
mutate-validated w f s h = elim (Result-cases (validate_persisted_state s.file)) [
  | inl (_, e) ↦ e
  | inr (x, e) ↦ absurd (ground (arith, rw e at h))
]
