-- ===== src/Fecbus/Frame/RoundTrip.antt =====
-- `DecodeFrame` after `EncodeFrame`, and what the encoder guarantees.
use mocktrue.Base.{ℕ, ◌+◌, ◌-◌, ◌%◌, ◌≤◌, ◌≡◌, refl, ap, ◌∙◌, arith, List, [], ◌∷◌, ◌++◌}
use mocktrue.Base.{true, length, get_or, All, ok, err}
use mocktrue.Base.{length-append, get_or-append, take-append_at, Result, ◌⊎◌, inl, inr}
use mocktrue.Base.Hex.{IsByte}
use mocktrue.Modbus.Words.{lo, hi, le_u16-lo}
use mocktrue.Fecbus.Checksum.{crc16, crc16_range}
use mocktrue.Fecbus.Frame.{Error, Frame, frame_boundary, validate_frame_fields, frame_function}
use mocktrue.Fecbus.Frame.{frame_body, encode_frame, decode_frame, frame_of_raw}

-- The frame on the wire.
abbrev pub wire : Frame → List ℕ
wire f = let crc = crc16 (frame_body f) in frame_body f ++ (lo crc ∷ hi crc ∷ frame_boundary ∷ [])

-- The frame as it is decoded: the raw bytes, the checksum flag and the time are filled in.
abbrev pub received : Frame → ℕ → Frame
received f now = record f { raw = wire f; crc_ok = true; timestamp = now }

valid_length :
    (f : Frame) → validate_frame_fields f ≡ ok tt → (1 ≤ length f.payload) × (length f.payload ≤ 8)
unfolding validate_frame_fields
valid_length f v = ground arith

valid_received :
    (f : Frame) (now : ℕ) → validate_frame_fields (received f now) ≡ validate_frame_fields f
unfolding validate_frame_fields frame_function
valid_received f now = refl

module _ (f : Frame) (v : validate_frame_fields f ≡ ok tt) where
  abbrev trailer : List ℕ
  trailer = lo (crc16 (frame_body f)) ∷ hi (crc16 (frame_body f)) ∷ frame_boundary ∷ []

  length-body : length (frame_body f) ≡ 8 + length f.payload
  unfolding frame_body
  length-body = omega arith

  length-wire : length (wire f) ≡ 11 + length f.payload
  length-wire = omega (arith, length-body, length-append (frame_body f) trailer)

  from_trailer :
      (i n : ℕ) → n ≡ length (frame_body f) + i → get_or (wire f) n 0 ≡ get_or trailer i 0
  from_trailer i n e = get_or-append (frame_body f) trailer i n 0 e

  first_byte : get_or (wire f) 0 0 ≡ frame_boundary
  unfolding frame_body
  first_byte = refl

  count_byte : get_or (wire f) 7 0 ≡ length f.payload
  unfolding frame_body
  count_byte = omega (arith, valid_length f v)

  frame_of_wire : (now : ℕ) → frame_of_raw (wire f) now ≡ received f now
  unfolding frame_of_raw frame_body
  frame_of_wire now =
      ap (λ p. record (received f now) { payload = p })
        (take-append_at f.payload trailer (length f.payload % 256)
          (omega (arith, valid_length f v)))

  decode_wire :
      (now : ℕ) → All IsByte (frame_body f) → decode_frame (wire f) now ≡ ok (received f now)
  unfolding decode_frame
  decode_wire now h = ground (
    arith,
    length-wire,
    length-body,
    first_byte,
    count_byte,
    from_trailer 0 (length (wire f) - 3),
    from_trailer 1 (length (wire f) - 2),
    from_trailer 2 (length (wire f) - 1),
    take-append_at (frame_body f) trailer (length (wire f) - 3),
    le_u16-lo (crc16 (frame_body f)) (crc16_range (frame_body f) h),
    frame_of_wire now,
    valid_received f now ∙ v,
    valid_length f v,
  )

-- A frame of bytes whose fields `validateFrameFields` accepts is encoded in 11 bytes more than its
-- data has, and decoded again to the same frame with the raw bytes, the checksum flag and the time
-- filled in.
pub decode_frame-encode_fecbus :
    (f : Frame) (now : ℕ)
    → validate_frame_fields f ≡ ok tt
    → All IsByte (frame_body f)
    → (raw : List ℕ) × (encode_frame f ≡ ok raw)
      × (decode_frame raw now ≡ ok (record f { raw = raw; crc_ok = true; timestamp = now }))
      × (length raw ≡ 11 + length f.payload)
unfolding encode_frame
decode_frame-encode_fecbus f now v h = (wire f, rw v, decode_wire f v now h, length-wire f v)

pub Unit-cases : (r : Result Error (Unit {0})) → (r ≡ ok tt) ⊎ ((e : Error) × (r ≡ err e))
Unit-cases (ok tt) = inl refl
Unit-cases (err e) = inr (e, refl)

pub encode_frame-ok :
    (f : Frame) (raw : List ℕ) → encode_frame f ≡ ok raw → (raw ≡ wire f) × (1 ≤ length f.payload)
unfolding encode_frame
encode_frame-ok f raw e = elim (Unit-cases (validate_frame_fields f)) [
  | inl v ↦ (ground arith, (valid_length f v).0)
  | inr (x, v) ↦ absurd (ground arith)
]
