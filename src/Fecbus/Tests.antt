-- ===== src/Fecbus/Tests.antt =====
-- A poll of a device's connection status, framed.
use mocktrue.Base.{
  ℕ, ◌+◌, ◌≡◌, ◌≢◌, refl, arith, List, [], ◌∷◌, ◌++◌, true, false, ok, length, All, ◌⊎◌,
}
use mocktrue.Modbus.Words.{le_u16}
use mocktrue.Base.Hex.{IsByte}
use mocktrue.Fecbus.Checksum.{crc16}
use mocktrue.Fecbus.Function.{is_function_allowed}
use mocktrue.Fecbus.HexText.{parse_hex, format_hex, parse_hex-format_hex}
use mocktrue.Base.{some}
use mocktrue.Fecbus.Frame.{
  Frame, frame_boundary, validate_frame_fields, frame_function, frame_body, frame_of_raw,
}
use mocktrue.Fecbus.Frame.{encode_frame, decode_frame}
use mocktrue.Fecbus.Frame.RoundTrip.{decode_frame-encode_fecbus}
use mocktrue.Fecbus.Frame.Canonical.{encode_frame-decode_frame}
use mocktrue.Fecbus.Extract.{incomplete, short, found, extract_frame, extract_from, find_boundary}
use mocktrue.Fecbus.Extract.Laws.{Clear, verdict, extract_frame_cases}
use mocktrue.Fecbus.Extract.Frames.{inner, extract_frame-encode_frame, extract_frame-inner_boundary}

-- A request to device 5 with the data `payload`.
abbrev request : List ℕ → Frame
request payload = record {
  kind = 0;
  target = 5;
  priority = 3;
  source = 1;
  message = 9;
  group = 0;
  payload = payload;
  raw = [];
  crc_ok = false;
  timestamp = 0;
}

abbrev poll : Frame
poll = request (0x21 ∷ [])

-- The data of this request holds a boundary byte.
abbrev parameter_126 : Frame
parameter_126 = request (0x25 ∷ 0x7e ∷ [])

abbrev poll_raw : List ℕ
poll_raw = 0x7e ∷ 0 ∷ 5 ∷ 3 ∷ 1 ∷ 9 ∷ 0 ∷ 1 ∷ 0x21 ∷ 0x89 ∷ 0xb5 ∷ 0x7e ∷ []

abbrev gap : ℕ
gap = 32

abbrev noise : List ℕ
noise = 1 ∷ 2 ∷ []

abbrev parameter_raw : List ℕ
parameter_raw = 0x7e ∷ 0 ∷ 5 ∷ 3 ∷ 1 ∷ 9 ∷ 0 ∷ 2 ∷ 0x25 ∷ 0x7e ∷ 0x06 ∷ 0x46 ∷ 0x7e ∷ []

poll_accepted : validate_frame_fields poll ≡ ok tt
unfolding validate_frame_fields frame_function is_function_allowed
poll_accepted = refl

poll_encoded : encode_frame poll ≡ ok poll_raw
unfolding encode_frame validate_frame_fields frame_function is_function_allowed frame_body crc16
poll_encoded = refl

poll_decoded :
    decode_frame poll_raw 77 ≡ ok (record poll { raw = poll_raw; crc_ok = true; timestamp = 77 })
unfolding decode_frame frame_of_raw validate_frame_fields frame_function is_function_allowed crc16
    le_u16
poll_decoded = refl

parameter_encoded : encode_frame parameter_126 ≡ ok parameter_raw
unfolding encode_frame validate_frame_fields frame_function is_function_allowed frame_body crc16
parameter_encoded = refl

poll_bytes : All IsByte (frame_body poll)
unfolding frame_body
poll_bytes = ground arith

poll_raw_bytes : All IsByte poll_raw
poll_raw_bytes = ground arith

poll-Clear : Clear (inner poll)
unfolding frame_body crc16
poll-Clear = ground arith

parameter_dirty : ¬ Clear (inner parameter_126)
parameter_dirty h = h.1.1.1.1.1.1.1.1.0 refl

cut : extract_frame (parameter_raw ++ []) ≡ short (6 ∷ 70 ∷ 0x7e ∷ [])
unfolding extract_frame extract_from find_boundary
cut = refl

decode_frame-encode_fecbus_example :
    (raw : List ℕ) × (encode_frame poll ≡ ok raw)
    × (decode_frame raw 77 ≡ ok (record poll { raw = raw; crc_ok = true; timestamp = 77 }))
    × (length raw ≡ 11 + length poll.payload)
decode_frame-encode_fecbus_example = decode_frame-encode_fecbus poll 77 poll_accepted poll_bytes

encode_frame-decode_frame_example :
    let f = record poll { raw = poll_raw; crc_ok = true; timestamp = 77 } in
    (encode_frame f ≡ ok poll_raw) × (f.raw ≡ poll_raw) × (f.crc_ok ≡ true) × (f.timestamp ≡ 77)
encode_frame-decode_frame_example =
    encode_frame-decode_frame poll_raw 77
      (record poll { raw = poll_raw; crc_ok = true; timestamp = 77 }) poll_raw_bytes poll_decoded

extract_frame_cases_example :
    (Clear poll_raw × (extract_frame poll_raw ≡ incomplete []))
    ⊎ ((pre mid : List ℕ) × Clear pre
        × Clear mid
        × (poll_raw ≡ pre ++ (frame_boundary ∷ mid))
        × (extract_frame poll_raw ≡ incomplete (frame_boundary ∷ mid)))
    ⊎ ((pre mid rest : List ℕ) × Clear pre
        × Clear mid
        × (poll_raw ≡ pre ++ (frame_boundary ∷ (mid ++ (frame_boundary ∷ rest))))
        × (extract_frame poll_raw ≡ verdict mid rest))
extract_frame_cases_example = extract_frame_cases poll_raw

extract_frame-encode_frame_example :
    extract_frame (noise ++ (poll_raw ++ noise)) ≡ found poll_raw noise
extract_frame-encode_frame_example =
    extract_frame-encode_frame noise noise poll_raw poll (ground arith) poll-Clear poll_encoded

extract_frame-inner_boundary_example : extract_frame (parameter_raw ++ []) ≢ found parameter_raw []
extract_frame-inner_boundary_example =
    extract_frame-inner_boundary parameter_raw [] [] parameter_126 parameter_dirty parameter_encoded

parse_hex-format_hex_example : parse_hex (format_hex poll_raw) ≡ some poll_raw
parse_hex-format_hex_example = parse_hex-format_hex poll_raw poll_raw_bytes
