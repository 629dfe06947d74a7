-- ===== src/Examples/Frames.antt =====
-- Relay frames, their timestamps, and a guard that has accepted one.
use vor_commander.Base.{◌≡◌, ◌≢◌, refl, some, List, [], ◌∷◌, ok, arith, inr}
use vor_commander.Base.Text.{codes, bytes, is_blank, is_whitespace, utf8}
use vor_commander.Wire.Expiring.{find, retain}
use vor_commander.Wire.{
  RelayFrame, ReplayGuard, Coding, pos, timestamp_to_ms, encode_frame, decode_frame,
  validate_frame_shape, validate_id, expiry_of, verify_frame_at, check_fresh, accept,
}
use vor_commander.Wire.Timestamps.{decode-encode_frame}
use vor_commander.Wire.Capacity.{IsWithinCapacity, accept-IsWithinCapacity}
use vor_commander.Wire.Replay.{no_replay, Step, frame_at, prune_at, run}
use vor_commander.Examples.Data.{checksum, nonce_16}

abbrev frame : RelayFrame
frame = record {
  wire_version = 1;
  message_id = "m1";
  device_id = "pc";
  nonce = nonce_16;
  expires_at = some (record { seconds = pos 50; nanos = pos 7000000 });
  payload = some (1 ∷ 2 ∷ []);
}

abbrev other_frame : RelayFrame
other_frame = record frame { message_id = "m2"; nonce = 9 ∷ nonce_16 }

-- the same nonce under another message id
abbrev replayed : RelayFrame
replayed = record frame { message_id = "m3" }

abbrev coding : Coding
coding = record {
  encode_to_vec = λ f. bytes (codes f.message_id);
  decode = λ b. some frame;
  sha256 = checksum;
}

abbrev fresh : ReplayGuard
fresh = record { max_entries = 2; message_ids = []; nonces = [] }

frame_encoded : encode_frame coding frame ≡ ok (109 ∷ 49 ∷ [])
unfolding encode_frame validate_frame_shape validate_id is_blank is_whitespace utf8
frame_encoded = refl

decode-encode_frame_example : decode_frame coding (109 ∷ 49 ∷ []) ≡ ok frame
decode-encode_frame_example = decode-encode_frame coding frame (109 ∷ 49 ∷ []) refl frame_encoded

fresh-IsWithinCapacity : IsWithinCapacity fresh
unfolding IsWithinCapacity
fresh-IsWithinCapacity = (ground arith, ground arith)

accept-IsWithinCapacity_example : IsWithinCapacity (accept coding fresh frame 10).0
accept-IsWithinCapacity_example =
    accept-IsWithinCapacity coding fresh frame 10 fresh-IsWithinCapacity

frame_accepted : (accept coding fresh frame 10).1 ≡ ok tt
unfolding accept verify_frame_at validate_frame_shape validate_id is_blank is_whitespace expiry_of
    timestamp_to_ms check_fresh find retain
frame_accepted = refl

frame_expiry : expiry_of frame ≡ ok 50007
unfolding expiry_of timestamp_to_ms
frame_expiry = refl

abbrev meanwhile : List Step
meanwhile = frame_at other_frame 20 ∷ prune_at 30 ∷ frame_at replayed 40 ∷ []

no_replay_example :
    (accept coding (run coding meanwhile (accept coding fresh frame 10).0) replayed 50006).1 ≢ ok tt
no_replay_example =
    no_replay coding fresh frame replayed 10 50006 50007 meanwhile frame_accepted frame_expiry
      (ground arith, (ground arith, (ground arith, tt))) (ground arith) refl (inr refl)
