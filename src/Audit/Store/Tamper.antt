-- ===== src/Audit/Store/Tamper.antt =====
-- `verify_integrity` of crates/vor-audit/src/lib.rs: what the hash of the last row says of the rows.
use vor_commander.Base.{
  ℕ, ◌^◌, ◌<◌, ◌≡◌, ◌≢◌, refl, sym, ◌∙◌, ap, List, [], ◌∷◌, ◌++◌, ◌⊎◌, ok, arith, inl, inr,
  Bool-cases, length, All,
}
use vor_commander.Base.Text.{bytes, text_eq, text_eq_refl, text_eq→≡}
use vor_commander.Base.Encoding.{append-injective, bytes-injective}
use vor_commander.Protocol.{Digest32}
use vor_commander.Approval.{u64_be_bytes}
use vor_commander.Approval.Message.{u64-injective}
use vor_commander.Audit.Types.{AuditRecord, Row, Formats}
use vor_commander.Audit.Store.{zero_hash, hash_record, verify_rows}
use vor_commander.Audit.Store.Chain.{hash_after, IsLink, verify_rows-eq-ok}

abbrev rev_append : List Row → List Row → List Row
rev_append [] acc = acc
rev_append (r ∷ rs) acc = rev_append rs (r ∷ acc)

rev_append_twice :
    (xs acc ys : List Row) → rev_append (rev_append xs acc) ys ≡ rev_append acc (xs ++ ys)
rev_append_twice [] acc ys = refl
rev_append_twice (x ∷ xs) acc ys = rev_append_twice xs (x ∷ acc) ys

append_nil : (xs : List Row) → xs ++ [] ≡ xs
append_nil [] = refl
append_nil (x ∷ xs) = ap (λ l. x ∷ l) (append_nil xs)

rev_append-injective : (xs ys : List Row) → rev_append xs [] ≡ rev_append ys [] → xs ≡ ys
rev_append-injective xs ys h =
    sym (rev_append_twice xs [] [] ∙ append_nil xs)
    ∙ ap (λ l. rev_append l []) h
    ∙ rev_append_twice ys [] []
    ∙ append_nil ys

-- The sequence of a row is read as a `u64`.
unfoldable pub IsU64 : Row → Type 0
IsU64 r = r.sequence < 2 ^ 64

module _ (x : Formats) where
  -- Two inputs of one SHA-256, or an input whose SHA-256 is all zeros.
  pub IsBroken : Type 0
  IsBroken =
      ((m : List ℕ) × (n : List ℕ) × (m ≢ n) × (x.sha256 m ≡ x.sha256 n))
      ⊎ ((m : List ℕ) × (x.sha256 m ≡ zero_hash))

  -- The rows from the last to the first, up to the hash `h`.
  unfoldable IsLinked : Digest32 → List Row → Type 0
  IsLinked h [] = h ≡ zero_hash
  IsLinked h (r ∷ rs) =
      (r.record_hash ≡ h)
      × (h ≡ hash_record x r.sequence r.previous_hash r.event_json)
      × (r.sequence < 2 ^ 64)
      × IsLinked r.previous_hash rs

  verified-IsLinked :
      (rows : List Row) (p : Digest32) (acc : List Row) (recs : List AuditRecord)
      → verify_rows x p rows ≡ ok recs
      → All IsU64 rows
      → IsLinked p acc
      → IsLinked (hash_after x p rows) (rev_append rows acc)
  unfolding IsLinked IsLink IsU64
  verified-IsLinked [] p acc recs h b k = k
  verified-IsLinked (r ∷ rows) p acc recs h (b, bs) k =
      let (event, (prev, hash, parsed), rest, restored, same) =
        verify_rows-eq-ok x p r rows recs h in
      verified-IsLinked rows r.record_hash (r ∷ acc) rest restored bs
        (refl, (rw prev hash), b, (rw prev k))

  module _ (size : (m : List ℕ) → length (x.sha256 m) ≡ 32) where
    -- the bytes that are hashed for a row
    abbrev hashed : Row → List ℕ
    hashed r = r.previous_hash ++ (u64_be_bytes r.sequence ++ bytes r.event_json)

    length-IsLinked : (h : Digest32) (rs : List Row) → IsLinked h rs → length h ≡ 32
    unfolding IsLinked hash_record
    length-IsLinked h [] k = rw k
    length-IsLinked h (r ∷ rs) (_, k, _, _) = rw k (size _)

    IsLinked-unique :
        (h : Digest32) (a b : List Row) → IsLinked h a → IsLinked h b → (a ≡ b) ⊎ IsBroken
    unfolding IsLinked IsBroken hash_record
    IsLinked-unique h [] [] k l = inl refl
    IsLinked-unique h [] (s ∷ b) k (_, l, _, _) = inr (inr (_, sym l ∙ k))
    IsLinked-unique h (r ∷ a) [] (_, k, _, _) l = inr (inr (_, sym k ∙ l))
    IsLinked-unique h (r ∷ a) (s ∷ b) (rh, k, rb, ks) (sh, l, sb, ls) =
        elim (Bool-cases (text_eq (hashed r) (hashed s))) [
          | inl e ↦
              let (prev, rest) =
                append-injective r.previous_hash s.previous_hash _ _
                  (length-IsLinked r.previous_hash a ks
                    ∙ sym (length-IsLinked s.previous_hash b ls))
                  (text_eq→≡ (hashed r) (hashed s) e) in
              let (seq, payload) = u64-injective r.sequence s.sequence _ _ rb sb rest in
              let text = bytes-injective r.event_json s.event_json payload in
              elim (IsLinked-unique r.previous_hash a b ks (rw prev ls)) [
                | inl same ↦ inl (ground (arith, prev, seq, text, same, rh ∙ sym sh))
                | inr broken ↦ inr broken
              ]
          | inr e ↦ inr (
              inl (
                hashed r,
                hashed s,
                (λ q. ground (arith, e, text_eq_refl (hashed s), rw q at e)),
                sym k ∙ l,
              ))
        ]

    -- Two lists of rows that both verify and end in one hash are equal, or a weakness of SHA-256 is
    -- at hand: two inputs with one hash, or an input whose hash is all zeros.
    pub last_hash_pins_rows :
        (rows others : List Row) (recs others_recs : List AuditRecord)
        → verify_rows x zero_hash rows ≡ ok recs
        → verify_rows x zero_hash others ≡ ok others_recs
        → All IsU64 rows
        → All IsU64 others
        → hash_after x zero_hash rows ≡ hash_after x zero_hash others
        → (rows ≡ others) ⊎ IsBroken
    unfolding IsLinked
    last_hash_pins_rows rows others recs others_recs h k b c last =
        elim (IsLinked-unique _ (rev_append rows []) (rev_append others [])
          (verified-IsLinked rows zero_hash [] recs h b refl)
          (rw last (verified-IsLinked others zero_hash [] others_recs k c refl))) [
            | inl same ↦ inl (rev_append-injective rows others same)
            | inr broken ↦ inr broken
          ]
