-- ===== src/Relay/Results.antt =====
-- What a call of `dispatch_action` in apps/vor-relay/src/lib.rs returns, however the tasks run.
use vor_commander.Base.{ℕ, String, ◌≡◌, true, Option, some, Result, ok}
use vor_commander.Wire.{RelayFrame, Coding, WireError}
use vor_commander.Wire
use vor_commander.Dispatch.State.{ActionResult}
use vor_commander.Relay.Hub.{Relay, Payload, action_result, Connection}

module _ (P : String → ActionResult → Type 0) where
  module _ (coding : Coding) (payload_of : RelayFrame → Option Payload) where
    -- what the frame of a connection sends
    abbrev Sends : Connection → ℕ → Relay → Result WireError RelayFrame → Type 0
    Sends c now s x =
        (f : RelayFrame) (r : ActionResult)
        → x ≡ ok f
        → f.device_id ≡ c.device_id
        → (Wire.accept coding s.replay f now).1 ≡ ok tt
        → c.bound ≡ true
        → payload_of f ≡ some (action_result r)
        → P c.device_id r
