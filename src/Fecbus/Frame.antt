-- ===== src/Fecbus/Frame.antt =====
-- `EncodeFrame`, `DecodeFrame`, `validateFrameFields` and `BuildStatusAnswer` of
-- fecbus/protocol.go. The time of decoding is an argument, `now`.
pub mod RoundTrip
pub mod Canonical
use mocktrue.Base.{ℕ, ◌+◌, ◌-◌, ◌%◌, List, [], ◌∷◌, ◌++◌, Bool, true, false, not, ◌&&◌, ◌||◌}
use mocktrue.Base.{ltb, ◌==◌, if◌then◌else◌, length, get_or, take, drop}
use mocktrue.Base.{Result, ok, err, ◌>>=◌, ◌>>◌, fail_if}
use mocktrue.Modbus.Words.{lo, hi, le_u16}
use mocktrue.Fecbus.Checksum.{crc16}
use mocktrue.Fecbus.Function.{is_function_allowed}

pub data Error : Type 0 where
  too_short bad_start bad_end bad_length length_mismatch crc_mismatch : Error
  frame_type target_address priority source_address message_number group_number : Error
  data_length reserved_function payload_length : Error

abbrev pub frame_boundary : ℕ
frame_boundary = 0x7e

abbrev pub min_frame_bytes : ℕ
min_frame_bytes = 11

abbrev pub max_data_bytes : ℕ
max_data_bytes = 8

pub record Frame : Type 0 where
  pub kind : ℕ
  pub target : ℕ
  pub priority : ℕ
  pub source : ℕ
  pub message : ℕ
  pub group : ℕ
  pub payload : List ℕ
  pub raw : List ℕ
  pub crc_ok : Bool
  pub timestamp : ℕ

-- `frame.Data[0]`; the length of the data has been checked before it is read.
unfoldable pub frame_function : Frame → ℕ
frame_function f = get_or f.payload 0 0

unfoldable pub validate_frame_fields : Frame → Result Error (Unit {0})
validate_frame_fields f = do
  fail_if (not (f.kind == 0) && not (f.kind == 1)) frame_type
  fail_if (ltb 63 f.target) target_address
  fail_if (ltb 3 f.priority) priority
  fail_if (f.source == 0 || ltb 63 f.source) source_address
  fail_if (f.message == 0 || ltb 63 f.message) message_number
  fail_if (ltb 127 f.group) group_number
  fail_if (ltb (length f.payload) 1 || ltb max_data_bytes (length f.payload)) data_length
  fail_if (ltb f.group 2 && not (is_function_allowed (frame_function f))) reserved_function

-- The bytes that the checksum covers.
unfoldable pub frame_body : Frame → List ℕ
frame_body f =
    frame_boundary
    ∷ f.kind
    ∷ f.target
    ∷ f.priority
    ∷ f.source
    ∷ f.message
    ∷ f.group
    ∷ (length f.payload % 256)
    ∷ f.payload

unfoldable pub encode_frame : Frame → Result Error (List ℕ)
encode_frame f = do
  validate_frame_fields f
  let crc = crc16 (frame_body f)
  ok (frame_body f ++ (lo crc ∷ hi crc ∷ frame_boundary ∷ []))

-- The frame that `DecodeFrame` fills in from a raw frame with `dlc` bytes of data.
unfoldable pub frame_of_raw : List ℕ → ℕ → Frame
frame_of_raw raw now = record {
  kind = get_or raw 1 0;
  target = get_or raw 2 0;
  priority = get_or raw 3 0;
  source = get_or raw 4 0;
  message = get_or raw 5 0;
  group = get_or raw 6 0;
  payload = take (get_or raw 7 0) (drop 8 raw);
  raw = raw;
  crc_ok = true;
  timestamp = now;
}

unfoldable pub decode_frame : List ℕ → ℕ → Result Error Frame
decode_frame raw now = do
  fail_if (ltb (length raw) min_frame_bytes) too_short
  fail_if (not (get_or raw 0 0 == frame_boundary)) bad_start
  fail_if (not (get_or raw (length raw - 1) 0 == frame_boundary)) bad_end
  let dlc = get_or raw 7 0
  fail_if (ltb dlc 1 || ltb max_data_bytes dlc) bad_length
  fail_if (not (length raw == 1 + 7 + dlc + 2 + 1)) length_mismatch
  let got = le_u16 (get_or raw (length raw - 3) 0) (get_or raw (length raw - 2) 0)
  fail_if (not (got == crc16 (take (length raw - 3) raw))) crc_mismatch
  let frame = frame_of_raw raw now
  validate_frame_fields frame
  ok frame

-- `BuildStatusAnswer`: the answer is returned beside the error, if it is one.
unfoldable pub status_answer : Frame → ℕ → Frame
status_answer request status = record {
  kind = 1;
  target = request.source;
  priority = 3;
  source = if request.target == 0 then 1 else request.target;
  message = request.message;
  group = 0;
  payload = 0x0f ∷ status ∷ [];
  raw = [];
  crc_ok = false;
  timestamp = 0;
}

unfoldable pub build_status_answer : Frame → ℕ → Frame × Result Error (Unit {0})
build_status_answer request status =
    let answer = status_answer request status in (answer, validate_frame_fields answer)

unfoldable pub build_data : ℕ → List ℕ → Result Error (List ℕ)
build_data function payload = do
  fail_if (not (is_function_allowed function)) reserved_function
  fail_if (ltb (max_data_bytes - 1) (length payload)) payload_length
  ok (function ∷ payload)
