-- ===== src/Approval/Message.antt =====
-- The signed message: two approvals with one message are the same approval, so a signature is bound
-- to every field of its challenge and to its approver.
use Prim.Native.Nat.{ℕ, ◌^◌, ◌<◌, ◌≤◌}
use vor_commander.Base.{
  ◌≡◌, refl, sym, ap, ◌∙◌, String, Option, none, some, List, [], ◌∷◌, ◌++◌, length, arith, ok,
  >>=-eq-ok,
}
use vor_commander.Base.Text.{codes, bytes, byte_len, codes-injective}
use vor_commander.Base.Encoding.{append-injective, length-bytes, bytes-injective}
use vor_commander.Approval.{
  ApprovalChallenge, validate_text, push_text, push_capability, u32_be_bytes, u64_be_bytes,
  approval_message, approval_domain,
}

-- What the types `[u8; 32]` and `u64` promise of a challenge.
pub record IsChallenge (c : ApprovalChallenge) : Type 0 where
  pub digest_size : length c.envelope_digest ≡ 32
  pub nonce_size : length c.approval_nonce ≡ 32
  pub expiry_u64 : c.expires_at_unix_ms < 2 ^ 64

pub u64-injective :
    (m n : ℕ) (s t : List ℕ)
    → m < 2 ^ 64
    → n < 2 ^ 64
    → u64_be_bytes m ++ s ≡ u64_be_bytes n ++ t
    → (m ≡ n) × (s ≡ t)
unfolding u64_be_bytes
u64-injective m n s t hm hn h = (ground arith, ground arith)

u32-injective :
    (m n : ℕ) (s t : List ℕ)
    → m ≤ 4096
    → n ≤ 4096
    → u32_be_bytes m ++ s ≡ u32_be_bytes n ++ t
    → (m ≡ n) × (s ≡ t)
u32-injective m n s t hm hn h = (ground arith, ground arith)

pushed :
    (s : String) {p : List ℕ}
    → push_text s ≡ ok p
    → (byte_len (codes s) ≤ 4096) × (p ≡ u32_be_bytes (byte_len (codes s)) ++ bytes (codes s))
unfolding push_text validate_text
pushed s h = (ground arith, ground arith)

text_apart :
    (s t : String) (us vs : List ℕ)
    → byte_len (codes s) ≤ 4096
    → byte_len (codes t) ≤ 4096
    → u32_be_bytes (byte_len (codes s)) ++ (bytes (codes s) ++ us)
      ≡ u32_be_bytes (byte_len (codes t)) ++ (bytes (codes t) ++ vs)
    → (s ≡ t) × (us ≡ vs)
text_apart s t us vs hs ht h =
    let (l, r) =
      u32-injective (byte_len (codes s)) (byte_len (codes t)) (bytes (codes s) ++ us)
        (bytes (codes t) ++ vs) hs ht h in
    let (b, rest) =
      append-injective (bytes (codes s)) (bytes (codes t)) us vs
        (length-bytes (codes s) ∙ l ∙ sym (length-bytes (codes t))) r in
    (codes-injective s t (bytes-injective (codes s) (codes t) b), rest)

-- A pushed text is read back from the front of what follows it.
push_text-injective :
    (s t : String) {p q : List ℕ} (us vs : List ℕ)
    → push_text s ≡ ok p
    → push_text t ≡ ok q
    → p ++ us ≡ q ++ vs
    → (s ≡ t) × (us ≡ vs)
push_text-injective s t {p} {q} us vs hs ht h =
    let (ls, es) = pushed s hs in
    let (lt, et) = pushed t ht in
    text_apart s t us vs ls lt (sym (ap (λ l. l ++ us) es) ∙ h ∙ ap (λ l. l ++ vs) et)

push_capability-injective :
    (a b : Option String) {p q : List ℕ} (us vs : List ℕ)
    → push_capability a ≡ ok p
    → push_capability b ≡ ok q
    → p ++ us ≡ q ++ vs
    → (a ≡ b) × (us ≡ vs)
push_capability-injective none none us vs ha hb h = ground (arith, ha, hb, h)
push_capability-injective none (some t) us vs ha hb h =
    let (q', e, f) = >>=-eq-ok (push_text t) (λ text. ok (1 ∷ text)) hb in
    absurd (ground (arith, ha, f, h))
push_capability-injective (some s) none us vs ha hb h =
    let (p', e, f) = >>=-eq-ok (push_text s) (λ text. ok (1 ∷ text)) ha in
    absurd (ground (arith, hb, f, h))
push_capability-injective (some s) (some t) us vs ha hb h =
    let (p', e, f) = >>=-eq-ok (push_text s) (λ text. ok (1 ∷ text)) ha in
    let (q', k, g) = >>=-eq-ok (push_text t) (λ text. ok (1 ∷ text)) hb in
    let (st, rest) = push_text-injective s t us vs e k (ground (arith, f, g, h)) in
    (ap some st, rest)

-- The parts of a message that was put together.
record Parts (c : ApprovalChallenge) (approver_id : String) (m : List ℕ) : Type 0 where
  request : List ℕ
  policy : List ℕ
  capability : List ℕ
  approver : List ℕ
  of_request : push_text c.request_id ≡ ok request
  of_policy : push_text c.policy_id ≡ ok policy
  of_capability : push_capability c.required_capability ≡ ok capability
  of_approver : push_text approver_id ≡ ok approver
  whole :
      m
      ≡ approval_domain
        ++ (request
            ++ (c.envelope_digest
                ++ (policy
                    ++ (capability
                        ++ (u64_be_bytes c.expires_at_unix_ms ++ (c.approval_nonce ++ approver))))))

message-Parts :
    (c : ApprovalChallenge) (approver_id : String) {m : List ℕ}
    → approval_message c approver_id ≡ ok m
    → Parts c approver_id m
unfolding approval_message
message-Parts c approver_id h =
    let (r, er, h₁) = >>=-eq-ok (push_text c.request_id) _ h in
    let (p, ep, h₂) = >>=-eq-ok (push_text c.policy_id) _ h₁ in
    let (k, ek, h₃) = >>=-eq-ok (push_capability c.required_capability) _ h₂ in
    let (a, ea, h₄) = >>=-eq-ok (push_text approver_id) _ h₃ in
    record {
      request = r;
      policy = p;
      capability = k;
      approver = a;
      of_request = er;
      of_policy = ep;
      of_capability = ek;
      of_approver = ea;
      whole = ground (arith, h₄);
    }

tail_injective :
    (s t : String) {p q : List ℕ} → push_text s ≡ ok p → push_text t ≡ ok q → p ≡ q → s ≡ t
tail_injective s t {p} {q} hs ht h = (push_text-injective s t [] [] hs ht (ap (λ l. l ++ []) h)).0

-- Equal messages have equal challenges and equal approvers.
pub approval_message-injective :
    (c d : ApprovalChallenge) (a b : String) {m : List ℕ}
    → IsChallenge c
    → IsChallenge d
    → approval_message c a ≡ ok m
    → approval_message d b ≡ ok m
    → (c ≡ d) × (a ≡ b)
approval_message-injective c d a b vc vd hc hd =
    let p = message-Parts c a hc in
    let q = message-Parts d b hd in
    let (_, h₀) =
      append-injective approval_domain approval_domain _ _ refl (sym p.whole ∙ q.whole) in
    let (e₁, h₁) = push_text-injective c.request_id d.request_id _ _ p.of_request q.of_request h₀ in
    let (e₂, h₂) =
      append-injective c.envelope_digest d.envelope_digest _ _ (vc.digest_size ∙ sym vd.digest_size)
        h₁ in
    let (e₃, h₃) = push_text-injective c.policy_id d.policy_id _ _ p.of_policy q.of_policy h₂ in
    let (e₄, h₄) =
      push_capability-injective c.required_capability d.required_capability _ _ p.of_capability
        q.of_capability h₃ in
    let (e₅, h₅) =
      u64-injective c.expires_at_unix_ms d.expires_at_unix_ms _ _ vc.expiry_u64 vd.expiry_u64 h₄ in
    let (e₆, h₆) =
      append-injective c.approval_nonce d.approval_nonce _ _ (vc.nonce_size ∙ sym vd.nonce_size)
        h₅ in
    (cc (e₁, e₂, e₃, e₄, e₅, e₆), tail_injective a b p.of_approver q.of_approver h₆)
