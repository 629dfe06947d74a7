-- ===== src/Wire/Capacity.antt =====
-- `ReplayGuard` of crates/vor-wire/src/lib.rs never holds more than its capacity.
use vor_commander.Base.{
  ℕ, ◌≤◌, ◌<◌, ◌≡◌, false, ok, length, leb, ◌||◌, arith, inl, inr, Result-cases, >>=-eq-ok,
  reject_if-eq-ok,
}
use vor_commander.Base.Text.{is_some}
use vor_commander.Wire.Expiring.{find, length-retain, length-put}
use vor_commander.Wire.{
  RelayFrame, ReplayGuard, Coding, same_message, same_nonce, message_key, nonce_key, prune,
  check_fresh, accept, expiry_of, verify_frame_at, replay_detected, replay_window_full,
}

-- Both maps are within the capacity.
unfoldable pub IsWithinCapacity : ReplayGuard → Type 0
IsWithinCapacity g = (length g.message_ids ≤ g.max_entries) × (length g.nonces ≤ g.max_entries)

pub prune-IsWithinCapacity :
    (g : ReplayGuard) (now : ℕ) → IsWithinCapacity g → IsWithinCapacity (prune g now)
unfolding IsWithinCapacity
prune-IsWithinCapacity g now (a, b) = (
  (ground (arith, a, length-retain same_message now g.message_ids)),
  (ground (arith, b, length-retain same_nonce now g.nonces)),
)

module _ (x : Coding) where
  pub check_fresh-eq-ok :
      (g : ReplayGuard) (frame : RelayFrame) (expiry : ℕ)
      → check_fresh x g frame ≡ ok expiry
      → (expiry_of frame ≡ ok expiry)
        × (is_some (find same_message (message_key x frame) g.message_ids) ≡ false)
        × (is_some (find same_nonce (nonce_key x frame) g.nonces) ≡ false)
        × (length g.message_ids < g.max_entries)
        × (length g.nonces < g.max_entries)
  unfolding check_fresh
  check_fresh-eq-ok g frame expiry h =
      let (e, p, h1) = >>=-eq-ok (expiry_of frame) _ h in
      let (fresh, h2) =
        reject_if-eq-ok
          (is_some (find same_message (message_key x frame) g.message_ids)
            || is_some (find same_nonce (nonce_key x frame) g.nonces))
          replay_detected _ h1 in
      let (room, h3) =
        reject_if-eq-ok
          (leb g.max_entries (length g.message_ids) || leb g.max_entries (length g.nonces))
          replay_window_full _ h2 in
      (
        (ground (arith, p, h3)),
        (ground (arith, fresh)),
        (ground (arith, fresh)),
        (ground (arith, room)),
        (ground (arith, room)),
      )

  -- Whatever frame arrives, and whether or not it is accepted, a guard that holds at most its
  -- capacity holds at most its capacity afterwards.
  pub accept-IsWithinCapacity :
      (g : ReplayGuard) (frame : RelayFrame) (now : ℕ)
      → IsWithinCapacity g
      → IsWithinCapacity (accept x g frame now).0
  unfolding accept IsWithinCapacity
  accept-IsWithinCapacity g frame now h = elim (Result-cases (verify_frame_at frame now)) [
    | inl (_, v) ↦ elim (Result-cases (check_fresh x (prune g now) frame)) [
      | inl (e, c) ↦
          let (_, _, _, a, b) = check_fresh-eq-ok (prune g now) frame e c in
          rw (v, c)
            (
              (ground (
                arith,
                a,
                length-put same_message (message_key x frame) e (prune g now).message_ids,
              )),
              (ground (arith, b, length-put same_nonce (nonce_key x frame) e (prune g now).nonces)),
            )
      | inr (_, c) ↦ rw (v, c) (prune-IsWithinCapacity g now h)
    ]
    | inr (_, v) ↦ rw v h
  ]
