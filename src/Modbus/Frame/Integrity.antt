-- ===== src/Modbus/Frame/Integrity.antt =====
-- What an accepted RTU frame guarantees, and the corruption that `decodeRTU` notices.
use mocktrue.Base.{ℕ, zero, suc, ◌+◌, ◌-◌, ◌≤◌, ◌≡◌, ◌≢◌, refl, ap, sym, ◌∙◌, arith}
use mocktrue.Base.{
  List, [], ◌∷◌, ◌++◌, Bool-cases, inl, inr, ◌⊎◌, length-append, Text, to_lower, text_eq, ==_ne,
  ltb-false, length-take,
}
use mocktrue.Base.{All-split}
use mocktrue.Base.{◌==◌, length, get_or, take, All, All-append, All-get_or, ok, err}
use mocktrue.Base.Hex.{IsByte}
use mocktrue.Modbus.Words.{hi, lo, le_u16, le_u16_value}
use mocktrue.Modbus.Pdu.{bytes}
use mocktrue.Modbus.Checksum.{crc16}
use mocktrue.Modbus.Checksum.Laws.{crc16_residue, crc16_detects}
use mocktrue.Modbus.Frame.{DecodedFrame, rtu, rtu_crc, encode_rtu, encode_frame}
use mocktrue.Modbus.Frame.{decoded_from_payload, decode_rtu, decode_frame, normalize_frame_mode}

-- A frame of two bytes or more is what stands before its trailer, and the trailer.
split_at :
    (n : ℕ) (frame : List ℕ)
    → length frame ≡ n + 2
    → frame ≡ take n frame ++ (get_or frame n 0 ∷ get_or frame (suc n) 0 ∷ [])
split_at n [] h = absurd (omega arith)
split_at n (a ∷ []) h = absurd (omega arith)
split_at zero (a ∷ b ∷ []) h = refl
split_at zero (a ∷ b ∷ c ∷ rest) h = absurd (omega arith)
split_at (suc n) (a ∷ b ∷ rest) h = ap (λ t. a ∷ t) (split_at n (b ∷ rest) (omega arith))

-- The payload that `decodeRTU` reads.
abbrev body : List ℕ → List ℕ
body frame = take (length frame - 2) frame

abbrev trailer : List ℕ → ℕ
trailer frame = le_u16 (get_or frame (length frame - 2) 0) (get_or frame (length frame - 1) 0)

split_trailer :
    (frame : List ℕ)
    → 2 ≤ length frame
    → frame
      ≡ body frame ++ (get_or frame (length frame - 2) 0 ∷ get_or frame (length frame - 1) 0 ∷ [])
split_trailer frame h =
    split_at (length frame - 2) frame (omega arith)
    ∙ ap (λ i. body frame ++ (get_or frame (length frame - 2) 0 ∷ get_or frame i 0 ∷ []))
        (omega arith)

decoded_from_payload-ok :
    (mode : Text) (payload : List ℕ) (d : DecodedFrame)
    → decoded_from_payload mode payload ≡ ok d
    → (payload ≡ d.unit ∷ bytes d.pdu) × (d.mode ≡ mode)
unfolding decoded_from_payload bytes
decoded_from_payload-ok mode [] d e = absurd (cc e)
decoded_from_payload-ok mode (a ∷ []) d e = absurd (cc e)
decoded_from_payload-ok mode (a ∷ b ∷ rest) d e = ground arith

decode_rtu-ok :
    (frame : List ℕ) (d : DecodedFrame)
    → decode_rtu frame ≡ ok d
    → (4 ≤ length frame)
      × (trailer frame ≡ crc16 (body frame))
      × (body frame ≡ d.unit ∷ bytes d.pdu)
      × (d.mode ≡ rtu)
unfolding decode_rtu
decode_rtu-ok frame d e = ground (arith, decoded_from_payload-ok rtu (body frame) d)

All-take : (n : ℕ) (xs : List ℕ) → All IsByte xs → All IsByte (take n xs)
All-take zero xs h = tt
All-take (suc n) [] h = tt
All-take (suc n) (x ∷ xs) h = (h.0, All-take n xs h.1)

module _ (frame : List ℕ) (d : DecodedFrame) (wire : All IsByte frame) where
  -- The encoder gives back the frame that was accepted.
  encode_rtu-decode_rtu : decode_rtu frame ≡ ok d → encode_rtu (d.unit ∷ bytes d.pdu) ≡ frame
  unfolding encode_rtu
  encode_rtu-decode_rtu e =
      let f = decode_rtu-ok frame d e in
      ap (λ t. t ++ (lo (crc16 t) ∷ hi (crc16 t) ∷ [])) (sym f.2)
      ∙ rw (← f.1, low_kept, high_kept) (sym (split_trailer frame (omega (arith, f.0))))
    where
      low : ℕ
      low = get_or frame (length frame - 2) 0

      high : ℕ
      high = get_or frame (length frame - 1) 0

      low_byte : IsByte low
      low_byte = All-get_or IsByte frame (length frame - 2) 0 wire (omega arith)

      high_byte : IsByte high
      high_byte = All-get_or IsByte frame (length frame - 1) 0 wire (omega arith)

      low_kept : lo (trailer frame) ≡ low
      low_kept = omega (arith, low_byte, high_byte, le_u16_value low high low_byte high_byte)

      high_kept : hi (trailer frame) ≡ high
      high_kept = omega (arith, low_byte, high_byte, le_u16_value low high low_byte high_byte)

  -- So the checksum of a whole accepted frame is 0.
  frame_residue : decode_rtu frame ≡ ok d → crc16 frame ≡ 0
  frame_residue e =
      rw (← encode_rtu-decode_rtu e)
        (unfold encode_rtu in crc16_residue (d.unit ∷ bytes d.pdu) bytes_wire)
    where
      bytes_wire : All IsByte (d.unit ∷ bytes d.pdu)
      bytes_wire = rw ((decode_rtu-ok frame d e).2) at (All-take (length frame - 2) frame wire)

-- `DecodeFrame` in RTU mode accepts only what `EncodeFrame` makes: where it accepts bytes and the
-- unit is not 0, the encoder gives back the very frame that was decoded.
pub encode_frame-decode_rtu :
    (frame : List ℕ) (d : DecodedFrame)
    → All IsByte frame
    → d.unit ≢ 0
    → decode_frame rtu frame ≡ ok d
    → encode_frame d.mode d.unit d.pdu ≡ ok frame
unfolding encode_frame decode_frame normalize_frame_mode to_lower text_eq
encode_frame-decode_rtu frame d wire nz e =
    rw ((decode_rtu-ok frame d (rtu_only e)).3, ==_ne d.unit 0 nz)
      (ap ok (encode_rtu-decode_rtu frame d wire (rtu_only e)))
  where
    rtu_only : decode_frame rtu frame ≡ ok d → decode_rtu frame ≡ ok d
    rtu_only p = p

decoded_from_payload-total :
    (mode : Text) (payload : List ℕ)
    → 2 ≤ length payload
    → (d : DecodedFrame) × (decoded_from_payload mode payload ≡ ok d)
unfolding decoded_from_payload
decoded_from_payload-total mode [] h = absurd (omega arith)
decoded_from_payload-total mode (a ∷ []) h = absurd (omega arith)
decoded_from_payload-total mode (a ∷ b ∷ rest) h = (_, refl)

decode_rtu-cases :
    (frame : List ℕ)
    → 4 ≤ length frame
    → ((d : DecodedFrame) × (decode_rtu frame ≡ ok d)) ⊎ (decode_rtu frame ≡ err rtu_crc)
unfolding decode_rtu
decode_rtu-cases frame h = elim (Bool-cases (trailer frame == crc16 (body frame))) [
  | inl same ↦
      let (d, e) = decoded_from_payload-total rtu (body frame) long in
      inl (d, rw (ltb-false (length frame) 4 h, same) e)
  | inr other ↦ inr (rw (ltb-false (length frame) 4 h, other))
]
  where
    long : 2 ≤ length (body frame)
    long = omega (arith, length-take (length frame - 2) frame (omega arith))

-- If one byte of an RTU frame that `DecodeFrame` accepts, its trailer included, is changed to
-- another byte, `DecodeFrame` answers with the checksum error.
pub decode_frame_changed :
    (front back : List ℕ) (x y : ℕ) (d : DecodedFrame)
    → All IsByte (front ++ (x ∷ back))
    → IsByte y
    → x ≢ y
    → decode_frame rtu (front ++ (x ∷ back)) ≡ ok d
    → decode_frame rtu (front ++ (y ∷ back)) ≡ err rtu_crc
unfolding decode_frame normalize_frame_mode to_lower text_eq
decode_frame_changed front back x y d wire hy ne e =
    let (hf, hx, hb) = All-split IsByte front x back wire in
    elim (decode_rtu-cases (front ++ (y ∷ back)) long) [
      | inl (d', e') ↦ absurd (
          ne (
            crc16_detects front back x y hf hb hx hy (
              frame_residue (front ++ (x ∷ back)) d wire e
              ∙ sym (
                  frame_residue (front ++ (y ∷ back)) d'
                    (All-append IsByte front (y ∷ back) hf (hy, hb)) e'))))
      | inr bad ↦ bad
    ]
  where
    long : 4 ≤ length (front ++ (y ∷ back))
    long = omega (
      arith,
      (decode_rtu-ok (front ++ (x ∷ back)) d e).0,
      length-append front (x ∷ back),
      length-append front (y ∷ back),
    )
