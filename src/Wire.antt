-- ===== src/Wire.antt =====
-- crates/vor-wire/src/lib.rs: the shape of a relay frame, its expiry, its encoding, and the guard
-- against replayed frames. Protobuf and SHA-256 are parameters, the record `Coding`.
pub mod Expiring
pub mod Timestamps
pub mod Replay
pub mod Capacity
use vor_commander.Base.{
  ℕ, String, ◌+◌, ◌*◌, ◌/◌, ◌%◌, ◌^◌, Bool, true, false, not, Option, none, some, List, [], ◌∷◌,
  str_eq, leb, ltb, ◌==◌, ◌&&◌, ◌||◌, Result, ok, err, ok_or, reject_if, ◌>>=◌, ◌>>◌, length,
  if◌then◌else◌,
}
use vor_commander.Base.Text.{codes, byte_len, is_blank, text_eq, is_some}
use vor_commander.Protocol.{Digest32}
use vor_commander.Wire.Expiring.{Expiries, find, put, retain}

abbrev pub wire_version : ℕ
wire_version = 1

abbrev pub max_frame_bytes : ℕ
max_frame_bytes = 8 * 1024 * 1024

abbrev pub max_id_len : ℕ
max_id_len = 128

-- a signed integer, with the library's names
pub data ℤ : Type 0 where
  pos negsuc : ℕ → ℤ

-- `prost_types::Timestamp`: an `i64` and an `i32`
pub record Timestamp : Type 0 where
  pub seconds : ℤ
  pub nanos : ℤ

-- `RelayFrame` of proto/, with the bytes of its payload
pub record RelayFrame : Type 0 where
  pub wire_version : ℕ
  pub message_id : String
  pub device_id : String
  pub nonce : List ℕ
  pub expires_at : Option Timestamp
  pub payload : Option (List ℕ)

pub data WireError : Type 0 where
  decode invalid_timestamp missing_expiry expired replay_detected replay_window_full : WireError
  invalid_capacity nonce_too_short missing_payload : WireError
  frame_too_large unsupported_version : ℕ → WireError
  invalid_id : String → WireError

pub record Coding : Type 0 where
  pub encode_to_vec : RelayFrame → List ℕ
  pub decode : List ℕ → Option RelayFrame
  pub sha256 : List ℕ → Digest32

unfoldable pub validate_id : String → String → Result WireError (Unit {0})
validate_id name value =
    reject_if (is_blank (codes value) || ltb max_id_len (byte_len (codes value))) (invalid_id name)

unfoldable pub validate_frame_shape : RelayFrame → Result WireError (Unit {0})
validate_frame_shape frame = do
  reject_if (not (frame.wire_version == wire_version)) (unsupported_version frame.wire_version)
  validate_id "message_id" frame.message_id
  validate_id "device_id" frame.device_id
  reject_if (ltb (length frame.nonce) 16) nonce_too_short
  reject_if (not (is_some frame.payload)) missing_payload
  ok tt

-- `checked_mul` and `checked_add` of a `u64`
abbrev pub checked : ℕ → Result WireError ℕ
checked n = if leb (2 ^ 64) n then err invalid_timestamp else ok n

abbrev pub to_ms : ℤ → ℤ → Result WireError ℕ
to_ms (pos seconds) (pos nanos) = do
  reject_if (leb 1000000000 nanos) invalid_timestamp
  base ← checked (seconds * 1000)
  checked (base + nanos / 1000000)
to_ms _ _ = err invalid_timestamp

unfoldable pub timestamp_to_ms : Timestamp → Result WireError ℕ
timestamp_to_ms value = to_ms value.seconds value.nanos

unfoldable pub ms_to_timestamp : ℕ → Result WireError Timestamp
ms_to_timestamp value = do
  reject_if (leb (2 ^ 63) (value / 1000)) invalid_timestamp
  reject_if (leb (2 ^ 31) (value % 1000 * 1000000)) invalid_timestamp
  ok (record { seconds = pos (value / 1000); nanos = pos (value % 1000 * 1000000) })

unfoldable pub expiry_of : RelayFrame → Result WireError ℕ
expiry_of frame = do t ← ok_or frame.expires_at missing_expiry; timestamp_to_ms t

unfoldable pub verify_frame_at : RelayFrame → ℕ → Result WireError (Unit {0})
verify_frame_at frame now_unix_ms = do
  validate_frame_shape frame
  expires ← expiry_of frame
  reject_if (leb expires now_unix_ms) expired
  ok tt

abbrev pub MessageKey : Type 0
MessageKey = String × String

abbrev pub NonceKey : Type 0
NonceKey = String × Digest32

abbrev pub same_message : MessageKey → MessageKey → Bool
same_message a b = str_eq a.0 b.0 && str_eq a.1 b.1

abbrev pub same_nonce : NonceKey → NonceKey → Bool
same_nonce a b = str_eq a.0 b.0 && text_eq a.1 b.1

pub record ReplayGuard : Type 0 where
  pub max_entries : ℕ
  pub message_ids : Expiries MessageKey
  pub nonces : Expiries NonceKey

unfoldable pub new_guard : ℕ → Result WireError ReplayGuard
new_guard max_entries = do
  reject_if (max_entries == 0) invalid_capacity
  ok (record { max_entries = max_entries; message_ids = []; nonces = [] })

abbrev pub prune : ReplayGuard → ℕ → ReplayGuard
prune g now = record g {
  message_ids = retain same_message now g.message_ids;
  nonces = retain same_nonce now g.nonces;
}

module _ (x : Coding) where
  unfoldable pub encode_frame : RelayFrame → Result WireError (List ℕ)
  encode_frame frame = do
    validate_frame_shape frame
    let bytes = x.encode_to_vec frame
    reject_if (ltb max_frame_bytes (length bytes)) (frame_too_large (length bytes))
    ok bytes

  unfoldable pub decode_frame : List ℕ → Result WireError RelayFrame
  decode_frame bytes = do
    reject_if (ltb max_frame_bytes (length bytes)) (frame_too_large (length bytes))
    frame ← ok_or (x.decode bytes) decode
    validate_frame_shape frame
    ok frame

  abbrev pub message_key : RelayFrame → MessageKey
  message_key frame = (frame.device_id, frame.message_id)

  abbrev pub nonce_key : RelayFrame → NonceKey
  nonce_key frame = (frame.device_id, x.sha256 frame.nonce)

  -- what `accept` checks against the pruned guard
  unfoldable pub check_fresh : ReplayGuard → RelayFrame → Result WireError ℕ
  check_fresh g frame = do
    expiry ← expiry_of frame
    reject_if
        (is_some (find same_message (message_key frame) g.message_ids)
          || is_some (find same_nonce (nonce_key frame) g.nonces))
        replay_detected
    reject_if (leb g.max_entries (length g.message_ids) || leb g.max_entries (length g.nonces))
        replay_window_full
    ok expiry

  abbrev pub enter :
      ReplayGuard → RelayFrame → Result WireError ℕ → ReplayGuard × Result WireError (Unit {0})
  enter g frame (err e) = (g, err e)
  enter g frame (ok expiry) = (
    record g {
      message_ids = put same_message (message_key frame) expiry g.message_ids;
      nonces = put same_nonce (nonce_key frame) expiry g.nonces;
    },
    ok tt,
  )

  abbrev pub accept_verified :
      ReplayGuard
      → RelayFrame
      → ℕ
      → Result WireError (Unit {0})
      → ReplayGuard × Result WireError (Unit {0})
  accept_verified g frame now (err e) = (g, err e)
  accept_verified g frame now (ok u) = enter (prune g now) frame (check_fresh (prune g now) frame)

  unfoldable pub accept : ReplayGuard → RelayFrame → ℕ → ReplayGuard × Result WireError (Unit {0})
  accept g frame now = accept_verified g frame now (verify_frame_at frame now)
