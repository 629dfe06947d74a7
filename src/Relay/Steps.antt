-- ===== src/Relay/Steps.antt =====
-- The interleavings of the tasks of apps/vor-relay/src/lib.rs: each step is what one task does
-- between two waits.
use vor_commander.Base.{ℕ, String, ◌≡◌, true, Option, none, some, List, Result, ok}
use vor_commander.Protocol.{ActionRequest}
use vor_commander.Wire
use vor_commander.Wire.{RelayFrame, Coding, decode_frame}
use vor_commander.Dispatch.State.{ActionResult}
use vor_commander.Relay.Pending.{PendingKey, pending_at}
use vor_commander.Relay.Hub.{
  RelayError, device_offline, action_timeout, RelayCall, Relay, admitted, sending, waiting, failed,
  admit, set_call, claim_key, send_action, give_up, clean_up, take_result, Payload, action_result,
  forward_frame, end_connection, Connection, process_device_frame,
}

-- no `oneshot::Sender` for the call is left in the map
abbrev pub IsDropped : ℕ → Relay → Type 0
IsDropped n s = (k : PendingKey) → ¬ (pending_at k s.pending ≡ some n)

module _ (coding : Coding) (payload_of : RelayFrame → Option Payload) where
  pub data Step : Relay → Relay → Type 0 where
    dispatch :
        (n : ℕ) (device_id : String) (checked : Result RelayError ActionRequest) (c : RelayCall)
        (s : Relay)
        → s.calls n ≡ none
        → admit device_id checked s ≡ ok c
        → Step s (set_call n c s)
    claim :
        (n : ℕ) (c : RelayCall) (s : Relay)
        → s.calls n ≡ some c
        → c.stage ≡ admitted
        → Step s (claim_key n c s)
    send :
        (n : ℕ) (c : RelayCall) (s : Relay)
        → s.calls n ≡ some c
        → c.stage ≡ sending
        → Step s (send_action n c s)
    take :
        (n : ℕ) (c : RelayCall) (r : ActionResult) (s : Relay)
        → s.calls n ≡ some c
        → c.stage ≡ waiting
        → c.received ≡ some r
        → Step s (take_result n c r s)
    time_out :
        (n : ℕ) (c : RelayCall) (s : Relay)
        → s.calls n ≡ some c
        → c.stage ≡ waiting
        → c.received ≡ none
        → Step s (give_up n c action_timeout s)
    lose :
        (n : ℕ) (c : RelayCall) (s : Relay)
        → s.calls n ≡ some c
        → c.stage ≡ waiting
        → c.received ≡ none
        → IsDropped n s
        → Step s (give_up n c device_offline s)
    clean :
        (n : ℕ) (c : RelayCall) (e : RelayError) (s : Relay)
        → s.calls n ≡ some c
        → c.stage ≡ failed e
        → Step s (clean_up n c e s)
    frame :
        (id : ℕ) (c : Connection) (bytes : List ℕ) (now : ℕ) (s : Relay)
        → Step s (process_device_frame coding payload_of id c bytes now s).0
    forward : (sender : ℕ) (s : Relay) → Step s (forward_frame sender s)
    disconnect : (c : Connection) (s : Relay) → Step s (end_connection c s)

  pub data Reach (s : Relay) : Relay → Type 0 where
    here : Reach s s
    then_step : {t u : Relay} → Reach s t → Step t u → Reach s u

  -- On the way, a connection of the device has sent this result: its frame was for the device, it
  -- passed the guard against replay, and the connection had said hello.
  pub data IsSent (device_id : String) (r : ActionResult) (s : Relay)
      : (t : Relay) → Reach s t → Type 0 where
    at_last :
        {u : Relay} (reach : Reach s u) (id : ℕ) (c : Connection) (bytes : List ℕ) (now : ℕ)
        (f : RelayFrame)
        → c.device_id ≡ device_id
        → c.bound ≡ true
        → decode_frame coding bytes ≡ ok f
        → f.device_id ≡ device_id
        → (Wire.accept coding u.replay f now).1 ≡ ok tt
        → payload_of f ≡ some (action_result r)
        → IsSent device_id r s
            (process_device_frame coding payload_of id c bytes now u).0
            (then_step reach (frame id c bytes now u))
    earlier :
        {t u : Relay} {reach : Reach s t} (last : Step t u)
        → IsSent device_id r s t reach
        → IsSent device_id r s u (then_step reach last)
