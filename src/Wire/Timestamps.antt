-- ===== src/Wire/Timestamps.antt =====
-- Timestamps and frames of crates/vor-wire/src/lib.rs: both conversions are inverse where the first
-- one succeeds.
use vor_commander.Base.{
  ℕ, ◌+◌, ◌*◌, ◌/◌, ◌%◌, ◌^◌, ◌<◌, ◌≡◌, false, some, List, ok, leb, ltb, length, arith, ◌>>=◌,
  >>=-eq-ok, reject_if-eq-ok,
}
use vor_commander.Wire.{
  RelayFrame, ms_to_timestamp, timestamp_to_ms, Coding, encode_frame, decode_frame,
  validate_frame_shape, max_frame_bytes, frame_too_large,
}

-- Every `u64` of milliseconds has a timestamp, which is read back as that number.
pub timestamp_roundtrip :
    (value : ℕ) → value < 2 ^ 64 → (ms_to_timestamp value >>= timestamp_to_ms) ≡ ok value
unfolding ms_to_timestamp timestamp_to_ms
timestamp_roundtrip value h =
    let a : leb (2 ^ 63) (value / 1000) ≡ false = ground (arith, h) in
    let b : leb (2 ^ 31) (value % 1000 * 1000000) ≡ false = ground arith in
    let c : leb 1000000000 (value % 1000 * 1000000) ≡ false = ground arith in
    let d : leb (2 ^ 64) (value / 1000 * 1000) ≡ false = ground (arith, h) in
    let f : value / 1000 * 1000 + value % 1000 * 1000000 / 1000000 ≡ value = ground arith in
    let g : leb (2 ^ 64) value ≡ false = ground (arith, h) in rw (a, b, c, d, f, g)

-- A frame that is encoded decodes to itself, where Protobuf gives back what it wrote.
pub decode-encode_frame :
    (x : Coding) (frame : RelayFrame) (bytes : List ℕ)
    → x.decode (x.encode_to_vec frame) ≡ some frame
    → encode_frame x frame ≡ ok bytes
    → decode_frame x bytes ≡ ok frame
unfolding encode_frame decode_frame
decode-encode_frame x frame bytes back h =
    let (_, shape, h1) = >>=-eq-ok (validate_frame_shape frame) _ h in
    let (small, h2) =
      reject_if-eq-ok (ltb max_frame_bytes (length (x.encode_to_vec frame)))
        (frame_too_large (length (x.encode_to_vec frame))) _ h1 in
    let same : x.encode_to_vec frame ≡ bytes = ground (arith, h2) in rw (← same, small, back, shape)
