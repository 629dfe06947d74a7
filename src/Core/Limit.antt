-- ===== src/Core/Limit.antt =====
-- The rate limit of `authorize_at` of crates/vor-core/src/lib.rs.
use vor_commander.Base.{
  ℕ, ◌+◌, ◌-◌, ◌^◌, ◌<◌, ◌≤◌, ◌≡◌, refl, sym, ◌∙◌, ap, true, false, eq_iff, leb, Result, ok, err,
  map_err, arith, inl, inr, Result-cases, >>=-eq-ok, map_err-eq-ok, Bool-cases,
}
use vor_commander.Protocol
use vor_commander.Protocol.{ActionRequest, PolicyDecision, PolicyDecisionKind}
use vor_commander.Policy.Config.{PolicyEngine}
use vor_commander.Policy.Engine.{evaluate}
use vor_commander.Policy.Engine.Writes.{evaluate-write_reason}
use vor_commander.Audit.Types.{AuditRecord, AuditError}
use vor_commander.Audit.Store.{
  Ledger, no_fault, append, in_window, count_policy_auto_writes_since,
  sum_policy_auto_write_bytes_since,
}
use vor_commander.Audit.Store.Chain.{IsFaithful}
use vor_commander.Audit.Store.Window.{count-append}
use vor_commander.Core.{
  Outside, Broker, audit, protocol, Authorization, is_auto, answer, limited, rate_limit,
  authorization_event, decide, limit_write, authorize_at, saturating_add, content_bytes,
}

module _ (o : Outside) where
  -- the window of a request's actor and device, as the limit reads it
  abbrev pub written_files : Broker → ActionRequest → ℕ → Result AuditError ℕ
  written_files b request now =
      count_policy_auto_writes_since o.formats b.ledger.disk.rows request.envelope.actor_id
        request.envelope.device_id (now - 60000)

  abbrev pub written_bytes : Broker → ActionRequest → ℕ → Result AuditError ℕ
  written_bytes b request now =
      sum_policy_auto_write_bytes_since o.formats b.ledger.disk.rows request.envelope.actor_id
        request.envelope.device_id (now - 60000)

  -- Where the limit leaves a write automatic, the policy's own decision stands.
  rate_limit-auto :
      (b : Broker) (request : ActionRequest) (now : ℕ) (d d' : PolicyDecision)
      → rate_limit o b request now d ≡ ok d'
      → request.envelope.action ≡ "filesystem.write"
      → d'.kind ≡ PolicyDecisionKind.auto
      → (d' ≡ d)
        × (count : ℕ) × (bytes : ℕ) × (written_files b request now ≡ ok count)
        × (written_bytes b request now ≡ ok bytes)
        × (limited o b count bytes (content_bytes request) ≡ false)
  unfolding rate_limit limit_write
  rate_limit-auto b request now d d' h act k = elim (Bool-cases (is_auto d.kind)) [
    | inl p ↦
        let run : limit_write o b request (now - 60000) d ≡ ok d' =
          rw (p, (eq_iff request.envelope.action "filesystem.write").1 act) at h in
        let (count, a, h1) = >>=-eq-ok (map_err audit (written_files b request now)) _ run in
        let (bytes, c, h2) = >>=-eq-ok (map_err audit (written_bytes b request now)) _ h1 in
        elim (Bool-cases (limited o b count bytes (content_bytes request))) [
          | inl l ↦ absurd (ground (arith, k, rw l at h2))
          | inr l ↦ (
            (ground (arith, rw l at h2)),
            count,
            bytes,
            map_err-eq-ok audit _ a,
            map_err-eq-ok audit _ c,
            l,
          )
        ]
    | inr p ↦ absurd (ground (arith, p, k, rw p at h))
  ]

  answer-eq-ok :
      (a : Authorization) (m : Ledger × Result AuditError AuditRecord) (policy : PolicyEngine)
      {c : Authorization}
      → (answer a m policy).1 ≡ ok c
      → (entry : AuditRecord) × (m ≡ (m.0, ok entry))
        × (c ≡ a)
        × ((answer a m policy).0.ledger ≡ m.0)
  answer-eq-ok a (l, ok entry) policy h = (entry, refl, (ground (arith, h)), refl)
  answer-eq-ok a (l, err e) policy h = cc

  -- What an authorization that succeeds has decided and written.
  authorize-eq-ok :
      (b : Broker) (request : ActionRequest) (now : ℕ) (a : Authorization)
      → (authorize_at o no_fault b request now).1 ≡ ok a
      → (d : PolicyDecision) × (rate_limit o b request now (evaluate o.externals b.policy request)
          ≡ ok d)
        × (a ≡ record { request = request; decision = d })
        × (l : Ledger) × (entry : AuditRecord) × (append o.formats no_fault b.ledger
              (authorization_event o b request now d)
            ≡ (l, ok entry))
        × ((authorize_at o no_fault b request now).0.ledger ≡ l)
  unfolding authorize_at decide
  authorize-eq-ok b request now a h = elim (Result-cases (decide o b request now)) [
    | inl (d, e) ↦
        let (_, _, h1) = >>=-eq-ok (map_err protocol (Protocol.verify o.hashing request now)) _ e in
        let (entry, wrote, same, after) =
          answer-eq-ok (record { request = request; decision = d })
            (append o.formats no_fault b.ledger (authorization_event o b request now d)) b.policy
            (rw e at h) in
        (d, h1, same, _, entry, wrote, (rw e after))
    | inr (x, e) ↦ absurd (ground (arith, rw e at h))
  ]

  automatic_write-in_window :
      (b : Broker) (request : ActionRequest) (now : ℕ) (d : PolicyDecision)
      → request.envelope.action ≡ "filesystem.write"
      → d.kind ≡ PolicyDecisionKind.auto
      → d.reason_code ≡ "auto_write_safe"
      → in_window o.formats request.envelope.actor_id request.envelope.device_id
          (now - 60000)
          (authorization_event o b request now d)
        ≡ true
  unfolding in_window
  automatic_write-in_window b request now d act auto reason =
      let recent : leb (now - 60000) now ≡ true = ground arith in
      rw (
        act,
        auto,
        reason,
        (eq_iff request.envelope.actor_id request.envelope.actor_id).1 refl,
        (eq_iff request.envelope.device_id request.envelope.device_id).1 refl,
        recent,
      )

  -- A write that is authorized without a signature was below both limits of its window, and the
  -- window then holds one file more, still no more than the limit.
  pub auto_write_within_limits :
      IsFaithful o.formats
      → (b : Broker) (request : ActionRequest) (now : ℕ) (a : Authorization)
      → b.policy.config.auto_write.max_files_per_minute < 2 ^ 32
      → request.envelope.action ≡ "filesystem.write"
      → (authorize_at o no_fault b request now).1 ≡ ok a
      → a.decision.kind ≡ PolicyDecisionKind.auto
      → (count : ℕ) × (bytes : ℕ) × (written_files b request now ≡ ok count)
        × (written_bytes b request now ≡ ok bytes)
        × (saturating_add bytes (content_bytes request)
            ≤ b.policy.config.auto_write.max_bytes_per_minute)
        × (written_files (authorize_at o no_fault b request now).0 request now ≡ ok (count + 1))
        × (count + 1 ≤ b.policy.config.auto_write.max_files_per_minute)
  auto_write_within_limits faithful b request now a small act h k =
      let (d, decided, same, l, entry, wrote, after) = authorize-eq-ok b request now a h in
      let auto : d.kind ≡ PolicyDecisionKind.auto = ap (λ x. x.decision.kind) (sym same) ∙ k in
      let (own, count, bytes, counted, summed, below) =
        rate_limit-auto b request now (evaluate o.externals b.policy request) d decided act auto in
      let reason : d.reason_code ≡ "auto_write_safe" =
        ap (λ x. x.reason_code) own
        ∙ evaluate-write_reason o.externals b.policy request act
            (ap (λ x. x.kind) (sym own) ∙ auto) in
      let room : count < b.policy.config.auto_write.max_files_per_minute = ground (arith, below) in
      let grown =
        count-append o.formats request.envelope.actor_id request.envelope.device_id (now - 60000)
          faithful b.ledger l (authorization_event o b request now d) entry count wrote counted
          (ground (arith, room, small)) in
      (
        count,
        bytes,
        counted,
        summed,
        (ground (arith, below)),
        (rw after (rw (automatic_write-in_window b request now d act auto reason) at grown)),
        (ground (arith, room)),
      )
