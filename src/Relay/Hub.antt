-- ===== src/Relay/Hub.antt =====
-- `RelayHub` of apps/vor-relay/src/lib.rs with the calls of `dispatch_action` in progress, each cut
-- into the parts between which other tasks run, and the frames of a device.
use vor_commander.Base.{
  ℕ, ◌+◌, ◌-◌, ltb, String, Bool, true, false, not, Option, none, some, List, ◌&&◌, ◌||◌, ◌==◌,
  Result, ok, err, str_eq, if◌then◌else◌, ok_or, reject_if, ◌>>=◌, ◌>>◌,
}
use vor_commander.Base.Map.{Map, get, insert, remove}
use vor_commander.Base.Text.{codes, is_blank, text_eq}
use vor_commander.Protocol.{ActionRequest}
use vor_commander.Approval.{SignedApproval}
use vor_commander.Wire
use vor_commander.Wire.{RelayFrame, ReplayGuard, Coding, WireError, decode_frame}
use vor_commander.Dispatch.State.{
  ActionResult, remote_action_allowed, remote_approved_action_allowed,
}
use vor_commander.Relay.Pending.{
  PendingKey, PendingResultMap, pending_at, insert_pending, remove_pending, contains_key,
}

pub data RelayError : Type 0 where
  invalid_action_request remote_action_not_allowed device_offline duplicate_request : RelayError
  action_timeout invalid_frame device_mismatch first_frame_must_be_hello : RelayError
  unsolicited_result unexpected_device_payload : RelayError

pub record RelayDeviceSession : Type 0 where
  pub session_id : ℕ
  pub sender : ℕ

-- How far a call of `dispatch_action` has come: its session is found; its key is in `pending`; its
-- frame is sent; it has failed and has to remove its key; it has returned.
pub data Stage : Type 0 where
  admitted sending waiting : Stage
  failed : RelayError → Stage
  returned : Result RelayError ActionResult → Stage

-- a call, with what its `oneshot` channel holds
pub record RelayCall : Type 0 where
  pub key : PendingKey
  pub session : RelayDeviceSession
  pub stage : Stage
  pub received : Option ActionResult

-- the `mpsc` channel to a device's task: how many frames are in it, and whether the task is gone
pub record Channel : Type 0 where
  pub queued : ℕ
  pub closed : Bool

pub record Relay : Type 0 where
  pub devices : Map RelayDeviceSession
  pub pending : PendingResultMap
  pub replay : ReplayGuard
  pub calls : ℕ → Option RelayCall
  pub channels : ℕ → Channel

unfoldable pub register : String → ℕ → ℕ → Relay → Relay
register device_id session_id sender s = record s {
  devices = insert device_id (record { session_id = session_id; sender = sender }) s.devices;
}

abbrev pub is_session : ℕ → Option RelayDeviceSession → Bool
is_session session_id none = false
is_session session_id (some entry) = entry.session_id == session_id

unfoldable pub unregister : String → ℕ → Relay → Relay
unregister device_id session_id s =
    if is_session session_id (get device_id s.devices)
    then record s { devices = remove device_id s.devices }
    else s

abbrev pub set_call : ℕ → RelayCall → Relay → Relay
set_call n c s = record s { calls = λ m. if m == n then some c else s.calls m }

-- the checks of `dispatch_action`, on the request that `action_request_from_proto` gives
unfoldable pub check_action : String → Option ActionRequest → Result RelayError ActionRequest
check_action device_id canonical = do
  request ← ok_or canonical invalid_action_request
  reject_if
      (not (str_eq request.envelope.device_id device_id)
        || is_blank (codes request.envelope.request_id))
      invalid_action_request
  reject_if
      (not (remote_action_allowed request.envelope.action)
        && not (remote_approved_action_allowed request.envelope.action))
      remote_action_not_allowed
  ok request

unfoldable pub check_approved_action :
    String → Option ActionRequest → Option SignedApproval → Result RelayError ActionRequest
check_approved_action device_id canonical approval = do
  request ← ok_or canonical invalid_action_request
  signed ← ok_or approval invalid_action_request
  reject_if
      (not (str_eq request.envelope.device_id device_id)
        || is_blank (codes request.envelope.request_id)
        || not (str_eq signed.challenge.request_id request.envelope.request_id)
        || not (text_eq signed.challenge.envelope_digest request.envelope_digest))
      invalid_action_request
  reject_if (not (remote_approved_action_allowed request.envelope.action)) remote_action_not_allowed
  ok request

-- the call after the session of the device is found
unfoldable pub admit :
    String → Result RelayError ActionRequest → Relay → Result RelayError RelayCall
admit device_id checked s = do
  request ← checked
  session ← ok_or (get device_id s.devices) device_offline
  ok (record {
    key = (device_id, request.envelope.request_id);
    session = session;
    stage = admitted;
    received = none;
  })

abbrev pub return_with : Result RelayError ActionResult → RelayCall → RelayCall
return_with r c = record c { stage = returned r }

-- under the lock of `pending`
unfoldable pub claim_key : ℕ → RelayCall → Relay → Relay
claim_key n c s =
    if contains_key c.key s.pending
    then set_call n (return_with (err duplicate_request) c) s
    else set_call n (record c { stage = sending })
        (record s { pending = insert_pending c.key n s.pending })

abbrev pub channel_capacity : ℕ
channel_capacity = 32

abbrev pub set_channel : ℕ → Channel → Relay → Relay
set_channel sender channel s = record s {
  channels = λ m. if m == sender then channel else s.channels m;
}

abbrev pub push_frame : ℕ → Relay → Relay
push_frame sender s =
    set_channel sender (record (s.channels sender) { queued = (s.channels sender).queued + 1 }) s

-- `session.sender.send(frame)` fails where the device's task is gone, and waits while its channel is
-- full
unfoldable pub send_action : ℕ → RelayCall → Relay → Relay
send_action n c s =
    if (s.channels c.session.sender).closed
    then set_call n (record c { stage = failed device_offline }) s
    else if ltb (s.channels c.session.sender).queued channel_capacity
    then set_call n (record c { stage = waiting }) (push_frame c.session.sender s)
    else s

-- `outbound_rx.recv()` of the device's task, where a frame is there
unfoldable pub forward_frame : ℕ → Relay → Relay
forward_frame sender s =
    set_channel sender (record (s.channels sender) { queued = (s.channels sender).queued - 1 }) s

-- the timer fires, or the channel is closed, and nothing was received
unfoldable pub give_up : ℕ → RelayCall → RelayError → Relay → Relay
give_up n c e s = set_call n (record c { stage = failed e }) s

-- `self.pending.write().await.remove(&key)`, and the error
unfoldable pub clean_up : ℕ → RelayCall → RelayError → Relay → Relay
clean_up n c e s =
    set_call n (return_with (err e) c) (record s { pending = remove_pending c.key s.pending })

unfoldable pub take_result : ℕ → RelayCall → ActionResult → Relay → Relay
take_result n c r s = set_call n (return_with (ok r) c) s

-- whether the receiver of the call's channel is still there
abbrev pub is_listening : RelayCall → Bool
is_listening c = elim c.stage [ sending ↦ true | waiting ↦ true | _ ↦ false ]

abbrev pub send_result : ActionResult → ℕ → Option RelayCall → Relay → Relay × Bool
send_result r n none s = (s, false)
send_result r n (some c) s =
    if is_listening c then (set_call n (record c { received = some r }) s, true) else (s, false)

abbrev pub complete_at : String → ActionResult → Option ℕ → Relay → Relay × Bool
complete_at device_id r none s = (s, false)
complete_at device_id r (some n) s =
    send_result r n (s.calls n)
      (record s { pending = remove_pending (device_id, r.request_id) s.pending })

unfoldable pub complete_result : String → ActionResult → Relay → Relay × Bool
complete_result device_id r s =
    complete_at device_id r (pending_at (device_id, r.request_id) s.pending) s

pub data Payload : Type 0 where
  device_hello : String → Payload
  heartbeat other_payload : Payload
  action_result : ActionResult → Payload

-- what `handle_device` keeps of its connection
pub record Connection : Type 0 where
  pub device_id : String
  pub sender : ℕ
  pub session_id : Option ℕ
  pub bound : Bool

-- the end of `handle_device`: its receiver is dropped, and its session unregistered
unfoldable pub end_connection : Connection → Relay → Relay
end_connection c s =
    let closed = set_channel c.sender (record (s.channels c.sender) { closed = true }) s in
    elim c.session_id [ none ↦ closed | some session_id ↦ unregister c.device_id session_id closed ]

abbrev pub answer_result :
    Connection → Relay × Bool → Relay × Connection × Result RelayError (Unit {0})
answer_result c (s, true) = (s, c, ok tt)
answer_result c (s, false) = (s, c, err unsolicited_result)

-- the match on `(*bound, frame.payload)`; `id` is the random session id
unfoldable pub process_payload :
    ℕ
    → Connection
    → Bool
    → Option Payload
    → Relay
    → Relay × Connection × Result RelayError (Unit {0})
process_payload id c false (some (device_hello hello)) s =
    if str_eq hello c.device_id
    then (
      register c.device_id id c.sender s,
      record c { session_id = some id; bound = true },
      ok tt,
    )
    else (s, c, err first_frame_must_be_hello)
process_payload id c true (some heartbeat) s = (s, c, ok tt)
process_payload id c true (some (device_hello hello)) s =
    if str_eq hello c.device_id then (s, c, ok tt) else (s, c, err unexpected_device_payload)
process_payload id c true (some (action_result r)) s =
    answer_result c (complete_result c.device_id r s)
process_payload id c true (some other_payload) s = (s, c, err unexpected_device_payload)
process_payload id c true none s = (s, c, err unexpected_device_payload)
process_payload id c false (some heartbeat) s = (s, c, err first_frame_must_be_hello)
process_payload id c false (some (action_result r)) s = (s, c, err first_frame_must_be_hello)
process_payload id c false (some other_payload) s = (s, c, err first_frame_must_be_hello)
process_payload id c false none s = (s, c, err first_frame_must_be_hello)

module _ (coding : Coding) (payload_of : RelayFrame → Option Payload) where
  abbrev pub process_accepted :
      ℕ
      → Connection
      → RelayFrame
      → Relay
      → ReplayGuard × Result WireError (Unit {0})
      → Relay × Connection × Result RelayError (Unit {0})
  process_accepted id c frame s (g, err e) = (record s { replay = g }, c, err invalid_frame)
  process_accepted id c frame s (g, ok u) =
      process_payload id c c.bound (payload_of frame) (record s { replay = g })

  abbrev pub process_decoded :
      ℕ
      → Connection
      → ℕ
      → Relay
      → Result WireError RelayFrame
      → Relay × Connection × Result RelayError (Unit {0})
  process_decoded id c now s (err e) = (s, c, err invalid_frame)
  process_decoded id c now s (ok frame) =
      if str_eq frame.device_id c.device_id
      then process_accepted id c frame s (Wire.accept coding s.replay frame now)
      else (s, c, err device_mismatch)

  -- `process_device_frame` up to the acknowledgement
  unfoldable pub process_device_frame :
      ℕ → Connection → List ℕ → ℕ → Relay → Relay × Connection × Result RelayError (Unit {0})
  process_device_frame id c bytes now s = process_decoded id c now s (decode_frame coding bytes)
