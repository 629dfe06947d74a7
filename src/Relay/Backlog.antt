-- ===== src/Relay/Backlog.antt =====
-- The wait of `session.sender.send(frame).await` in `dispatch_action` of apps/vor-relay/src/lib.rs,
-- which no timeout ends.
use vor_commander.Base.{
  ℕ, ◌-◌, ltb, String, ◌≡◌, ◌≢◌, refl, sym, ap, ◌∙◌, subst, Bool, true, false, Option, none, some,
  ◌==◌, Result, ok, err, ◌⊎◌, inl, inr, arith, str_eq, Bool-cases, Option-cases,
}
use vor_commander.Base.Map.{get}
use vor_commander.Wire
use vor_commander.Wire.{RelayFrame, ReplayGuard, Coding, WireError, decode_frame}
use vor_commander.Dispatch.State.{ActionResult}
use vor_commander.Relay.Pending.{contains_key, insert_pending, remove_pending}
use vor_commander.Relay.Hub.{
  RelayError, RelayCall, Relay, Channel, admitted, sending, waiting, failed, set_call, return_with,
  duplicate_request, set_channel, channel_capacity, push_frame, send_action, claim_key, give_up,
  clean_up, take_result, is_listening, send_result, complete_at, complete_result, register,
  unregister, is_session, forward_frame, end_connection, Payload, device_hello, heartbeat,
  action_result, other_payload, Connection, answer_result, process_payload, process_accepted,
  process_decoded, process_device_frame,
}
use vor_commander.Relay.Steps.{
  Step, Reach, dispatch, claim, send, take, time_out, lose, clean, frame, forward, disconnect, here,
  then_step,
}

-- a call whose frame waits for room in the channel of its device
abbrev pub IsWaitingFor : ℕ → Option RelayCall → Channel → Type 0
IsWaitingFor sender call channel =
    (c : RelayCall) × (call ≡ some c)
    × (c.stage ≡ sending)
    × (c.session.sender ≡ sender)
    × (channel.closed ≡ false)
    × (ltb channel.queued channel_capacity ≡ false)

abbrev pub IsBlocked : ℕ → ℕ → Relay → Type 0
IsBlocked n sender s = IsWaitingFor sender (s.calls n) (s.channels sender)

-- a step on another call, or on this one in another stage
IsBlocked-set :
    (n sender m : ℕ) (c : RelayCall) (s : Relay)
    → (m ≡ n → ¬ IsBlocked n sender s)
    → IsBlocked n sender s
    → IsBlocked n sender (set_call m c s)
IsBlocked-set n sender m c s other h = elim (Bool-cases (n == m)) [
  | inl e ↦ absurd (other (ground (arith, e)) h)
  | inr e ↦ rw e h
]

not_sending :
    (n sender m : ℕ) (c : RelayCall) (s : Relay)
    → s.calls m ≡ some c
    → c.stage ≢ sending
    → m ≡ n
    → ¬ IsBlocked n sender s
not_sending n sender m c s at different same (d, at', stage, _, _, _) =
    let call : c ≡ d = ground (arith, at, at', same) in different (ap (λ x. x.stage) call ∙ stage)

IsBlocked-push :
    (n sender other : ℕ) (s : Relay)
    → other ≢ sender
    → IsBlocked n sender s
    → IsBlocked n sender (push_frame other s)
IsBlocked-push n sender other s different h = elim (Bool-cases (sender == other)) [
  | inl e ↦ absurd (different (ground (arith, e)))
  | inr e ↦ rw e h
]

IsBlocked-channel :
    (n sender other : ℕ) (channel : Channel) (s : Relay)
    → (sender == other) ≡ false
    → IsBlocked n sender s
    → IsBlocked n sender (set_channel other channel s)
IsBlocked-channel n sender other channel s e h = rw e h

send-room :
    (m : ℕ) (c : RelayCall) (s : Relay)
    → (s.channels c.session.sender).closed ≡ false
    → ltb (s.channels c.session.sender).queued channel_capacity ≡ true
    → send_action m c s ≡ set_call m (record c { stage = waiting }) (push_frame c.session.sender s)
unfolding send_action
send-room m c s e room = rw (e, room) refl

-- a frame to a channel with room is not for the channel that is full
IsBlocked-send :
    (n sender m : ℕ) (c : RelayCall) (s : Relay)
    → s.calls m ≡ some c
    → IsBlocked n sender s
    → IsBlocked n sender (send_action m c s)
unfolding send_action
IsBlocked-send n sender m c s at h =
    let (d, at', stage, to, opened, full) = h in
    elim (Bool-cases (s.channels c.session.sender).closed) [
      | inl e ↦ rw e (
          IsBlocked-set n sender m (record c { stage = failed RelayError.device_offline }) s
            (λ same _.
              let call : c ≡ d = ground (arith, at, at', same) in
              ground (
                arith,
                e,
                opened,
                ap (λ x. (s.channels x.session.sender).closed) call,
                ap (λ x. (s.channels x).closed) to,
              ))
            h)
      | inr e ↦ elim (Bool-cases (ltb (s.channels c.session.sender).queued channel_capacity)) [
        | inl room ↦
            let not_to : c.session.sender ≢ sender = λ q.
              ground (arith, room, full, ap (λ x. ltb (s.channels x).queued channel_capacity) q) in
            subst (IsBlocked n sender) (sym (send-room m c s e room)) (
              IsBlocked-set n sender m (record c { stage = waiting })
                (push_frame c.session.sender s)
                (λ same _.
                  let call : c ≡ d = ground (arith, at, at', same) in
                  not_to (ap (λ x. x.session.sender) call ∙ to))
                (IsBlocked-push n sender c.session.sender s not_to h))
        | inr no_room ↦ rw (e, no_room) h
      ]
    ]

IsBlocked-result :
    (n sender m : ℕ) (r : ActionResult) (found : Option RelayCall) (s : Relay)
    → s.calls m ≡ found
    → IsBlocked n sender s
    → IsBlocked n sender (send_result r m found s).0
IsBlocked-result n sender m r none s at h = h
IsBlocked-result n sender m r (some c) s at h =
    let (d, at', stage, to, opened, full) = h in
    elim (Bool-cases (is_listening c)) [
      | inr e ↦ rw e h
      | inl e ↦ elim (Bool-cases (n == m)) [
        | inr other ↦ rw (e, other) h
        | inl same ↦
            let call : c ≡ d = ground (arith, at, at', same) in
            rw (e, same)
              (
                record c { received = some r },
                refl,
                ap (λ x. x.stage) call ∙ stage,
                ap (λ x. x.session.sender) call ∙ to,
                opened,
                full,
              )
      ]
    ]

IsBlocked-complete :
    (n sender : ℕ) (device_id : String) (r : ActionResult) (found : Option ℕ) (s : Relay)
    → IsBlocked n sender s
    → IsBlocked n sender (complete_at device_id r found s).0
IsBlocked-complete n sender device_id r none s h = h
IsBlocked-complete n sender device_id r (some m) s h =
    IsBlocked-result n sender m r (s.calls m) _ refl h

IsBlocked-answer :
    (n sender : ℕ) (c : Connection) (x : Relay × Bool)
    → IsBlocked n sender x.0
    → IsBlocked n sender (answer_result c x).0
IsBlocked-answer n sender c (s, true) h = h
IsBlocked-answer n sender c (s, false) h = h

IsBlocked-payload :
    (n sender id : ℕ) (c : Connection) (bound : Bool) (payload : Option Payload) (s : Relay)
    → IsBlocked n sender s
    → IsBlocked n sender (process_payload id c bound payload s).0
unfolding process_payload register complete_result
IsBlocked-payload n sender id c false (some (device_hello hello)) s h =
    elim (Bool-cases (str_eq hello c.device_id)) [ inl e ↦ rw e h | inr e ↦ rw e h ]
IsBlocked-payload n sender id c true (some heartbeat) s h = h
IsBlocked-payload n sender id c true (some (device_hello hello)) s h =
    elim (Bool-cases (str_eq hello c.device_id)) [ inl e ↦ rw e h | inr e ↦ rw e h ]
IsBlocked-payload n sender id c true (some (action_result r)) s h =
    IsBlocked-answer n sender c (complete_result c.device_id r s)
      (IsBlocked-complete n sender c.device_id r _ s h)
IsBlocked-payload n sender id c true (some other_payload) s h = h
IsBlocked-payload n sender id c true none s h = h
IsBlocked-payload n sender id c false (some heartbeat) s h = h
IsBlocked-payload n sender id c false (some (action_result r)) s h = h
IsBlocked-payload n sender id c false (some other_payload) s h = h
IsBlocked-payload n sender id c false none s h = h

IsBlocked-claim :
    (n sender m : ℕ) (c : RelayCall) (s : Relay)
    → s.calls m ≡ some c
    → c.stage ≡ admitted
    → IsBlocked n sender s
    → IsBlocked n sender (claim_key m c s)
unfolding claim_key
IsBlocked-claim n sender m c s at stage h =
    let other : m ≡ n → ¬ IsBlocked n sender s =
      not_sending n sender m c s at (λ q. ground (arith, stage, q)) in
    elim (Bool-cases (contains_key c.key s.pending)) [
      | inl e ↦ rw e (IsBlocked-set n sender m (return_with (err duplicate_request) c) s other h)
      | inr e ↦ rw e (
          IsBlocked-set n sender m (record c { stage = sending })
            (record s { pending = insert_pending c.key m s.pending }) other h)
    ]

IsBlocked-unregister :
    (n sender : ℕ) (device_id : String) (session_id : ℕ) (s : Relay)
    → IsBlocked n sender s
    → IsBlocked n sender (unregister device_id session_id s)
unfolding unregister
IsBlocked-unregister n sender device_id session_id s h =
    elim (Bool-cases (is_session session_id (get device_id s.devices))) [
      | inl e ↦ rw e h
      | inr e ↦ rw e h
    ]

IsBlocked-forward :
    (n sender other : ℕ) (s : Relay)
    → (sender == other) ≡ false
    → IsBlocked n sender s
    → IsBlocked n sender (forward_frame other s)
unfolding forward_frame
IsBlocked-forward n sender other s e h =
    IsBlocked-channel n sender other
      (record (s.channels other) { queued = (s.channels other).queued - 1 }) s e h

IsBlocked-end :
    (n sender : ℕ) (c : Connection) (s : Relay)
    → (sender == c.sender) ≡ false
    → IsBlocked n sender s
    → IsBlocked n sender (end_connection c s)
unfolding end_connection
IsBlocked-end n sender c s e h =
    let after =
      IsBlocked-channel n sender c.sender (record (s.channels c.sender) { closed = true }) s e h in
    elim (Option-cases c.session_id) [
      | inl none_yet ↦ rw none_yet after
      | inr (session_id, q) ↦ rw q (IsBlocked-unregister n sender c.device_id session_id _ after)
    ]

module _ (coding : Coding) (payload_of : RelayFrame → Option Payload) where
  IsBlocked-accepted :
      (n sender id : ℕ) (c : Connection) (f : RelayFrame) (s : Relay)
      (x : ReplayGuard × Result WireError (Unit {0}))
      → IsBlocked n sender s
      → IsBlocked n sender (process_accepted coding payload_of id c f s x).0
  IsBlocked-accepted n sender id c f s (g, err e) h = h
  IsBlocked-accepted n sender id c f s (g, ok u) h =
      IsBlocked-payload n sender id c c.bound (payload_of f) (record s { replay = g }) h

  IsBlocked-decoded :
      (n sender id : ℕ) (c : Connection) (now : ℕ) (s : Relay) (x : Result WireError RelayFrame)
      → IsBlocked n sender s
      → IsBlocked n sender (process_decoded coding payload_of id c now s x).0
  IsBlocked-decoded n sender id c now s (err e) h = h
  IsBlocked-decoded n sender id c now s (ok f) h =
      elim (Bool-cases (str_eq f.device_id c.device_id)) [
        | inl e ↦ rw e (IsBlocked-accepted n sender id c f s (Wire.accept coding s.replay f now) h)
        | inr e ↦ rw e h
      ]

  -- On the way, the task of the device took a frame out of the channel, or ended.
  pub data IsServed (sender : ℕ) (s : Relay)
      : (t : Relay) → Reach coding payload_of s t → Type 0 where
    forwarded :
        {u : Relay} (reach : Reach coding payload_of s u) (other : ℕ)
        → other ≡ sender
        → IsServed sender s (forward_frame other u) (then_step reach (forward other u))
    ended :
        {u : Relay} (reach : Reach coding payload_of s u) (c : Connection)
        → c.sender ≡ sender
        → IsServed sender s (end_connection c u) (then_step reach (disconnect c u))
    before :
        {t u : Relay} {reach : Reach coding payload_of s t} (last : Step coding payload_of t u)
        → IsServed sender s t reach
        → IsServed sender s u (then_step reach last)

  IsBlocked-step :
      (n sender : ℕ) {s t u : Relay} (reach : Reach coding payload_of s t)
      (step : Step coding payload_of t u)
      → IsBlocked n sender t
      → IsBlocked n sender u ⊎ IsServed sender s u (then_step reach step)
  unfolding take_result give_up clean_up process_device_frame
  IsBlocked-step n sender reach (dispatch m device_id checked c s free admits) h = inl (
      IsBlocked-set n sender m c s (λ same (d, at', _, _, _, _). ground (arith, free, at', same)) h)
  IsBlocked-step n sender reach (claim m c s at stage) h =
      inl (IsBlocked-claim n sender m c s at stage h)
  IsBlocked-step n sender reach (send m c s at stage) h = inl (IsBlocked-send n sender m c s at h)
  IsBlocked-step n sender reach (take m c r s at stage received) h = inl (
      IsBlocked-set n sender m _ s (not_sending n sender m c s at (λ q. ground (arith, stage, q)))
        h)
  IsBlocked-step n sender reach (time_out m c s at stage received) h = inl (
      IsBlocked-set n sender m _ s (not_sending n sender m c s at (λ q. ground (arith, stage, q)))
        h)
  IsBlocked-step n sender reach (lose m c s at stage received gone) h = inl (
      IsBlocked-set n sender m _ s (not_sending n sender m c s at (λ q. ground (arith, stage, q)))
        h)
  IsBlocked-step n sender reach (clean m c e s at stage) h = inl (
      IsBlocked-set n sender m (return_with (err e) c)
        (record s { pending = remove_pending c.key s.pending })
        (not_sending n sender m c s at (λ q. ground (arith, stage, q))) h)
  IsBlocked-step n sender reach (frame id c bytes now s) h =
      inl (IsBlocked-decoded n sender id c now s (decode_frame coding bytes) h)
  IsBlocked-step n sender {s} reach (forward other u) h = elim (Bool-cases (sender == other)) [
    | inl e ↦ let same : other ≡ sender = ground (arith, e) in inr (forwarded reach other same)
    | inr e ↦ inl (IsBlocked-forward n sender other u e h)
  ]
  IsBlocked-step n sender reach (disconnect c u) h = elim (Bool-cases (sender == c.sender)) [
    | inl e ↦ inr (ended reach c (ground (arith, e)))
    | inr e ↦ inl (IsBlocked-end n sender c u e h)
  ]

  -- The timeout of `dispatch_action` does not bound its wait for the channel. A call whose frame finds
  -- the channel of its device full stays where it is, whatever other calls and devices do and however
  -- long it takes, until the task of its device takes a frame out of the channel or ends.
  pub send_waits :
      (n sender : ℕ) (s t : Relay) (reach : Reach coding payload_of s t)
      → IsBlocked n sender s
      → IsBlocked n sender t ⊎ IsServed sender s t reach
  send_waits n sender s _ here h = inl h
  send_waits n sender s _ (then_step reach step) h = elim (send_waits n sender s _ reach h) [
    | inl blocked ↦ IsBlocked-step n sender reach step blocked
    | inr served ↦ inr (before step served)
  ]
