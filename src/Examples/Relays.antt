-- ===== src/Examples/Relays.antt =====
-- A device that connects to the relay, gets a request and sends its result.
use vor_commander.Base.{
  String, ◌≡◌, ◌⊎◌, refl, true, false, Option, none, some, [], ◌∷◌, ok, Result, str_eq,
  if◌then◌else◌,
}
use vor_commander.Base.Map.{get, insert}
use vor_commander.Base.Text.{codes, bytes, is_blank, is_whitespace, text_eq}
use vor_commander.Wire.Expiring.{find, retain, put}
use vor_commander.Wire.{
  RelayFrame, Coding, pos, timestamp_to_ms, decode_frame, validate_frame_shape, validate_id,
  expiry_of, verify_frame_at, check_fresh, accept,
}
use vor_commander.Dispatch.State.{
  ActionResult, remote_action_allowed, remote_approved_action_allowed,
}
use vor_commander.Relay.Pending.{pending_at, insert_pending, remove_pending}
use vor_commander.Relay.Hub.{
  RelayError, RelayCall, Relay, admitted, sending, waiting, returned, set_call, check_action, admit,
  claim_key, send_action, take_result, register, complete_result, Payload, device_hello,
  action_result, Connection, process_payload, process_device_frame, forward_frame,
}
use vor_commander.Relay.Steps.{Reach, here, then_step, dispatch, claim, send, take, frame, forward}
use vor_commander.Relay.Backlog.{IsBlocked, IsServed, send_waits}
use vor_commander.Examples.Data.{checksum, nonce_16}
use vor_commander.Examples.Approvals.{stop_request}

abbrev device_id : String
device_id = stop_request.envelope.device_id

abbrev hello_frame : RelayFrame
hello_frame = record {
  wire_version = 1;
  message_id = "m1";
  device_id = device_id;
  nonce = nonce_16;
  expires_at = some (record { seconds = pos 50; nanos = pos 7000000 });
  payload = some (1 ∷ []);
}

abbrev result_frame : RelayFrame
result_frame = record hello_frame {
  message_id = "m2";
  nonce = 9 ∷ nonce_16;
  payload = some (2 ∷ []);
}

abbrev coding : Coding
coding = record {
  encode_to_vec = λ f. bytes (codes f.message_id);
  decode = λ b. some (if text_eq b (1 ∷ []) then hello_frame else result_frame);
  sha256 = checksum;
}

abbrev ended : ActionResult
ended = record {
  request_id = "r2";
  exit_code = pos 0;
  status = "ok";
  stdout_digest = [];
  stderr_digest = [];
  completed_at = record { seconds = pos 40; nanos = pos 0 };
  output = [];
  content_type = "application/json";
  truncated = false;
}

abbrev payload_of : RelayFrame → Option Payload
payload_of f =
    some (if str_eq f.message_id "m1" then device_hello device_id else action_result ended)

abbrev idle : Relay
idle = record {
  devices = [];
  pending = [];
  replay = record { max_entries = 4; message_ids = []; nonces = [] };
  calls = λ n. none;
  channels = λ n. record { queued = 0; closed = false };
}

abbrev connection : Connection
connection = record { device_id = device_id; sender = 1; session_id = none; bound = false }

abbrev bound_connection : Connection
bound_connection = record connection { session_id = some 77; bound = true }

abbrev connected : Relay
connected = (process_device_frame coding payload_of 77 connection (1 ∷ []) 10 idle).0

abbrev call : RelayCall
call = record {
  key = (device_id, "r2");
  session = record { session_id = 77; sender = 1 };
  stage = admitted;
  received = none;
}

abbrev started : Relay
started = set_call 5 call connected

abbrev claimed_call : RelayCall
claimed_call = record call { stage = sending }

abbrev claiming : Relay
claiming = claim_key 5 call started

abbrev waiting_call : RelayCall
waiting_call = record call { stage = waiting }

abbrev sent : Relay
sent = send_action 5 claimed_call claiming

abbrev answered_call : RelayCall
answered_call = record waiting_call { received = some ended }

abbrev answered : Relay
answered = (process_device_frame coding payload_of 78 bound_connection (2 ∷ []) 20 sent).0

abbrev finished : Relay
finished = take_result 5 answered_call ended answered

abbrev answer : Result RelayError ActionResult
answer = ok ended

abbrev returned_call : RelayCall
returned_call = record answered_call { stage = returned answer }

call_admitted : admit device_id (check_action device_id (some stop_request)) connected ≡ ok call
unfolding process_device_frame decode_frame validate_frame_shape validate_id is_blank is_whitespace
    accept verify_frame_at expiry_of timestamp_to_ms check_fresh find retain process_payload
    register insert get admit check_action remote_action_allowed remote_approved_action_allowed
call_admitted = refl

call_free : connected.calls 5 ≡ none
unfolding process_device_frame decode_frame validate_frame_shape validate_id is_blank is_whitespace
    accept verify_frame_at expiry_of timestamp_to_ms check_fresh find retain process_payload
    register insert
call_free = refl

call_claims : claiming.calls 5 ≡ some claimed_call
unfolding process_device_frame decode_frame validate_frame_shape validate_id is_blank is_whitespace
    accept verify_frame_at expiry_of timestamp_to_ms check_fresh find retain process_payload
    register insert claim_key pending_at insert_pending
call_claims = refl

call_answered : answered.calls 5 ≡ some answered_call
unfolding process_device_frame decode_frame validate_frame_shape validate_id is_blank is_whitespace
    accept verify_frame_at expiry_of timestamp_to_ms check_fresh find retain process_payload
    register insert claim_key pending_at insert_pending send_action complete_result remove_pending
    put
call_answered = refl

abbrev exchange : Reach coding payload_of idle finished
exchange =
    then_step
      (then_step
        (then_step
          (then_step
            (then_step (then_step here (frame 77 connection (1 ∷ []) 10 idle)) (
              dispatch 5 device_id (check_action device_id (some stop_request)) call connected
                call_free call_admitted))
            (claim 5 call started refl refl))
          (send 5 claimed_call claiming call_claims refl))
        (frame 78 bound_connection (2 ∷ []) 20 sent))
      (take 5 answered_call ended answered call_answered refl refl)

-- the call's frame waits, since the channel of its device is full
abbrev busy : Relay
busy = record claiming { channels = λ n. record { queued = 32; closed = false } }

busy_call : busy.calls 5 ≡ some claimed_call
busy_call = call_claims

abbrev still_busy : Relay
still_busy =
    (process_device_frame coding payload_of 79 bound_connection (2 ∷ []) 20
      (forward_frame 2 busy)).0

abbrev meanwhile : Reach coding payload_of busy still_busy
meanwhile =
    then_step (then_step here (forward 2 busy))
      (frame 79 bound_connection (2 ∷ []) 20 (forward_frame 2 busy))

send_waits_example :
    IsBlocked 5 1 still_busy ⊎ IsServed coding payload_of 1 busy still_busy meanwhile
send_waits_example =
    send_waits coding payload_of 5 1 busy still_busy meanwhile
      (claimed_call, busy_call, refl, refl, refl, refl)
