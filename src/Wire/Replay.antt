-- ===== src/Wire/Replay.antt =====
-- `ReplayGuard` of crates/vor-wire/src/lib.rs: an accepted frame is not accepted again while it has
-- not expired.
use vor_commander.Base.{
  ℕ, ◌<◌, ◌≡◌, ◌≢◌, ◌⊎◌, Bool, true, false, some, List, [], ◌∷◌, ok, arith, inl, inr, Result-cases,
  Bool-cases, eq_iff, All,
}
use vor_commander.Base.Text.{is_some, text_eq_refl, text_eq→≡}
use vor_commander.Wire.Expiring.{find, find-retain, find-put_self, find-put_ne}
use vor_commander.Wire.{
  RelayFrame, ReplayGuard, Coding, MessageKey, NonceKey, same_message, same_nonce, message_key,
  nonce_key, prune, check_fresh, accept, expiry_of, verify_frame_at,
}
use vor_commander.Wire.Capacity.{check_fresh-eq-ok}

same_message→≡ : (a b : MessageKey) → same_message a b ≡ true → a ≡ b
same_message→≡ (a, b) (c, d) h = ground (arith, eq_iff a c, eq_iff b d, h)

same_message_refl : (a : MessageKey) → same_message a a ≡ true
same_message_refl (a, b) = ground (arith, eq_iff a a, eq_iff b b)

same_nonce→≡ : (a b : NonceKey) → same_nonce a b ≡ true → a ≡ b
same_nonce→≡ (a, b) (c, d) h = ground (arith, eq_iff a c, text_eq→≡ b d, h)

same_nonce_refl : (a : NonceKey) → same_nonce a a ≡ true
same_nonce_refl (a, b) = ground (arith, eq_iff a a, text_eq_refl b)

-- The guard holds the keys of a frame until `e`.
unfoldable IsHeld : MessageKey → NonceKey → ℕ → ReplayGuard → Type 0
IsHeld m n e g =
    (find same_message m g.message_ids ≡ some e) × (find same_nonce n g.nonces ≡ some e)

prune-IsHeld :
    (m : MessageKey) (n : NonceKey) (e now : ℕ) (g : ReplayGuard)
    → now < e
    → IsHeld m n e g
    → IsHeld m n e (prune g now)
unfolding IsHeld
prune-IsHeld m n e now g b (p, q) = (
  find-retain same_message m now e g.message_ids p b,
  find-retain same_nonce n now e g.nonces q b,
)

-- what a guard meets between two frames
pub data Step : Type 0 where
  frame_at : RelayFrame → ℕ → Step
  prune_at : ℕ → Step

abbrev pub time : Step → ℕ
time (frame_at frame now) = now
time (prune_at now) = now

module _ (x : Coding) where
  unfoldable pub run : List Step → ReplayGuard → ReplayGuard
  run [] g = g
  run (frame_at frame now ∷ steps) g = run steps (accept x g frame now).0
  run (prune_at now ∷ steps) g = run steps (prune g now)

  -- a key that is held and one that is not are different
  apart :
      {K : Type 0} (same : K → K → Bool) (same→≡ : (a b : K) → same a b ≡ true → a ≡ b) (k j : K)
      (e : ℕ) (t : List (K × ℕ))
      → find same k t ≡ some e
      → is_some (find same j t) ≡ false
      → same j k ≡ false
  apart same same→≡ k j e t h n = elim (Bool-cases (same j k)) [
    | inl p ↦ ground (arith, rw (same→≡ j k p, h) at n)
    | inr p ↦ p
  ]

  accept-IsHeld :
      (m : MessageKey) (n : NonceKey) (e : ℕ) (g : ReplayGuard) (frame : RelayFrame) (now : ℕ)
      → now < e
      → IsHeld m n e g
      → IsHeld m n e (accept x g frame now).0
  unfolding accept IsHeld
  accept-IsHeld m n e g frame now b h = elim (Result-cases (verify_frame_at frame now)) [
    | inl (_, v) ↦
        let (p, q) = prune-IsHeld m n e now g b h in
        elim (Result-cases (check_fresh x (prune g now) frame)) [
          | inl (d, c) ↦
              let (_, fm, fn, _, _) = check_fresh-eq-ok x (prune g now) frame d c in
              rw (v, c)
                (
                  find-put_ne same_message same_message→≡ same_message_refl (message_key x frame) m
                      d e _ p (apart same_message same_message→≡ m (message_key x frame) e _ p fm),
                  find-put_ne same_nonce same_nonce→≡ same_nonce_refl (nonce_key x frame) n d e _ q
                      (apart same_nonce same_nonce→≡ n (nonce_key x frame) e _ q fn),
                )
          | inr (_, c) ↦ rw (v, c) (p, q)
        ]
    | inr (_, v) ↦ rw v h
  ]

  run-IsHeld :
      (steps : List Step) (m : MessageKey) (n : NonceKey) (e : ℕ) (g : ReplayGuard)
      → All (λ s. time s < e) steps
      → IsHeld m n e g
      → IsHeld m n e (run steps g)
  unfolding run
  run-IsHeld [] m n e g b h = h
  run-IsHeld (frame_at frame now ∷ steps) m n e g (b, bs) h =
      run-IsHeld steps m n e _ bs (accept-IsHeld m n e g frame now b h)
  run-IsHeld (prune_at now ∷ steps) m n e g (b, bs) h =
      run-IsHeld steps m n e _ bs (prune-IsHeld m n e now g b h)

  -- What an acceptance has entered.
  accept-eq-ok :
      (g : ReplayGuard) (frame : RelayFrame) (now : ℕ)
      → (accept x g frame now).1 ≡ ok tt
      → (e : ℕ) × (expiry_of frame ≡ ok e)
        × IsHeld (message_key x frame) (nonce_key x frame) e (accept x g frame now).0
        × (is_some (find same_message (message_key x frame) (prune g now).message_ids) ≡ false)
        × (is_some (find same_nonce (nonce_key x frame) (prune g now).nonces) ≡ false)
  unfolding accept IsHeld
  accept-eq-ok g frame now h = elim (Result-cases (verify_frame_at frame now)) [
    | inl (_, v) ↦ elim (Result-cases (check_fresh x (prune g now) frame)) [
      | inl (e, c) ↦
          let (read, fm, fn, _, _) = check_fresh-eq-ok x (prune g now) frame e c in
          (
            e,
            read,
            (rw (v, c)
                (
                  find-put_self same_message same_message→≡ same_message_refl (message_key x frame)
                      e _,
                  find-put_self same_nonce same_nonce→≡ same_nonce_refl (nonce_key x frame) e _,
                )),
            fm,
            fn,
          )
      | inr (_, c) ↦ absurd (ground (arith, rw (v, c) at h))
    ]
    | inr (_, v) ↦ absurd (ground (arith, rw v at h))
  ]

  -- While an accepted frame has not expired, no frame of the same device with the same message id or
  -- the same nonce is accepted, whatever frames and prunings came in between.
  pub no_replay :
      (g : ReplayGuard) (frame again : RelayFrame) (now later expiry : ℕ) (steps : List Step)
      → (accept x g frame now).1 ≡ ok tt
      → expiry_of frame ≡ ok expiry
      → All (λ s. time s < expiry) steps
      → later < expiry
      → again.device_id ≡ frame.device_id
      → (again.message_id ≡ frame.message_id) ⊎ (again.nonce ≡ frame.nonce)
      → (accept x (run steps (accept x g frame now).0) again later).1 ≢ ok tt
  unfolding IsHeld
  no_replay g frame again now later expiry steps h read between before device same again_ok =
      let (e, own, held, _, _) = accept-eq-ok g frame now h in
      let same_time : e ≡ expiry = ground (arith, own, read) in
      let (p, q) =
        prune-IsHeld (message_key x frame) (nonce_key x frame) expiry later
          (run steps (accept x g frame now).0) before
          (run-IsHeld steps (message_key x frame) (nonce_key x frame) expiry _ between
            (rw same_time at held)) in
      let (_, _, _, fm, fn) =
        accept-eq-ok (run steps (accept x g frame now).0) again later again_ok in
      elim same [
        | inl m ↦ ground (arith, rw (device, m, p) at fm)
        | inr n ↦ ground (arith, rw (device, n, q) at fn)
      ]
