-- ===== src/Protocol/Canonical.antt =====
-- The canonical form that is hashed (`ActionEnvelope::normalized`): it does not depend on the order
-- in which the capabilities, and the constraints of each, are listed.
use mathlib.Core.List.{Permᴰ}
use vor_commander.Base.{◌≡◌, refl, ap, true, false, List, [], ◌∷◌, map, arith}
use vor_commander.Base.Text.{Text, codes, text_eq, text_eq_refl, text_eq→≡, codes-injective}
use vor_commander.Base.Sort.{sort-perm, IsTotalOrder, text_le, text_le-IsTotalOrder}
use vor_commander.Protocol.{
  Capability, ActionEnvelope, Hashing, texts_le, capability_le, normalized_capability, normalized,
  digest,
}

text_eq_sym : (s t : Text) → text_eq s t ≡ text_eq t s
text_eq_sym [] [] = refl
text_eq_sym [] (d ∷ t) = refl
text_eq_sym (c ∷ s) [] = refl
text_eq_sym (c ∷ s) (d ∷ t) = ground (arith, text_eq_sym s t)

texts_le-total : (ss ts : List Text) → texts_le ss ts ≡ false → texts_le ts ss ≡ true
unfolding texts_le
texts_le-total [] ts h = cc
texts_le-total (s ∷ ss) [] h = refl
texts_le-total (s ∷ ss) (t ∷ ts) h =
    ground (arith, texts_le-total ss ts, text_eq_sym s t, text_le-IsTotalOrder.total s t)

texts_le-antisym : (ss ts : List Text) → texts_le ss ts ≡ true → texts_le ts ss ≡ true → ss ≡ ts
unfolding texts_le
texts_le-antisym [] [] h k = refl
texts_le-antisym [] (t ∷ ts) h k = cc
texts_le-antisym (s ∷ ss) [] h k = cc
texts_le-antisym (s ∷ ss) (t ∷ ts) h k = ground (
  arith,
  texts_le-antisym ss ts,
  text_eq_sym s t,
  text_eq→≡ s t,
  text_eq_refl s,
  text_le-IsTotalOrder.antisym s t,
)

texts_le_trans :
    (ss ts us : List Text) → texts_le ss ts ≡ true → texts_le ts us ≡ true → texts_le ss us ≡ true
unfolding texts_le
texts_le_trans [] ts us h k = refl
texts_le_trans (s ∷ ss) [] us h k = cc
texts_le_trans (s ∷ ss) (t ∷ ts) [] h k = cc
texts_le_trans (s ∷ ss) (t ∷ ts) (u ∷ us) h k = ground (
  arith,
  texts_le_trans ss ts us,
  text_eq_sym s t,
  text_eq→≡ s t,
  text_eq→≡ t u,
  text_eq→≡ s u,
  text_eq_refl s,
  text_eq_refl t,
  text_le-IsTotalOrder.trans s t u,
  text_le-IsTotalOrder.antisym s t,
)

Capability-path :
    (a b : Capability) → codes a.name ≡ codes b.name → a.constraints ≡ b.constraints → a ≡ b
Capability-path a b n c = cc (codes-injective a.name b.name n, c)

capability_le-IsTotalOrder : IsTotalOrder capability_le
unfolding capability_le
capability_le-IsTotalOrder = record {
  total = λ a b h. ground (
    arith,
    text_eq_sym (codes a.name) (codes b.name),
    text_le-IsTotalOrder.total (codes a.name) (codes b.name),
    texts_le-total a.constraints b.constraints,
  );
  antisym = λ a b h k. ground (
    arith,
    text_eq_sym (codes a.name) (codes b.name),
    text_eq→≡ (codes a.name) (codes b.name),
    text_le-IsTotalOrder.antisym (codes a.name) (codes b.name),
    text_eq_refl (codes a.name),
    texts_le-antisym a.constraints b.constraints,
    Capability-path a b,
  );
  trans = λ a b c h k. ground (
    arith,
    text_eq_sym (codes a.name) (codes b.name),
    text_eq→≡ (codes a.name) (codes b.name),
    text_eq→≡ (codes b.name) (codes c.name),
    text_eq→≡ (codes a.name) (codes c.name),
    text_le-IsTotalOrder.antisym (codes a.name) (codes b.name),
    text_le-IsTotalOrder.trans (codes a.name) (codes b.name) (codes c.name),
    text_eq_refl (codes a.name),
    text_eq_refl (codes b.name),
    texts_le_trans a.constraints b.constraints c.constraints,
  );
}

-- Capability by capability the same name, and the same constraints in any order.
pub data SameConstraints : List Capability → List Capability → Type 0 where
  none_left : SameConstraints [] []
  one_more :
      {a b : Capability} {cs ds : List Capability}
      → a.name ≡ b.name
      → Permᴰ a.constraints b.constraints
      → SameConstraints cs ds
      → SameConstraints (a ∷ cs) (b ∷ ds)

map-normalized :
    {cs ds : List Capability}
    → SameConstraints cs ds
    → map normalized_capability cs ≡ map normalized_capability ds
unfolding normalized_capability
map-normalized none_left = refl
map-normalized (one_more {a} {b} n p rest) =
    cc
      (n, sort-perm text_le text_le-IsTotalOrder a.constraints b.constraints p, map-normalized rest)

map-perm :
    {cs ds : List Capability}
    → Permᴰ cs ds
    → Permᴰ (map normalized_capability cs) (map normalized_capability ds)
map-perm Permᴰ.nil = Permᴰ.nil
map-perm (Permᴰ.cons e d) = Permᴰ.cons (ap normalized_capability e) (map-perm d)
map-perm (Permᴰ.swap e f) = Permᴰ.swap (ap normalized_capability e) (ap normalized_capability f)
map-perm (Permᴰ.trans d e) = Permᴰ.trans (map-perm d) (map-perm e)

-- The digest of an envelope stays the same when its capabilities are listed in another order, and
-- the constraints of each capability in another order too.
pub digest-perm :
    (h : Hashing) (e : ActionEnvelope) (cs ds : List Capability)
    → Permᴰ e.requested_capabilities cs
    → SameConstraints cs ds
    → digest h e ≡ digest h (record e { requested_capabilities = ds })
unfolding digest normalized
digest-perm h e cs ds p q = cc (
  sort-perm capability_le capability_le-IsTotalOrder
      (map normalized_capability e.requested_capabilities) (map normalized_capability cs)
      (map-perm p),
  map-normalized q,
)
