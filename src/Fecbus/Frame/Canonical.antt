-- ===== src/Fecbus/Frame/Canonical.antt =====
-- What `DecodeFrame` accepts is what `EncodeFrame` makes.
use mocktrue.Base.{
  ℕ, zero, suc, ◌+◌, ◌-◌, ◌%◌, ◌<◌, ◌≤◌, ◌≡◌, refl, ap, ap₂, ◌*◌, sym, ◌∙◌, arith, List, [], ◌∷◌,
  ◌++◌,
}
use mocktrue.Base.{true, length, get_or, take, drop, All, All-get_or, ok}
use mocktrue.Base.{length-drop, length-take}
use mocktrue.Base.Hex.{IsByte}
use mocktrue.Modbus.Words.{lo, hi, le_u16, le_u16_value}
use mocktrue.Fecbus.Checksum.{crc16}
use mocktrue.Fecbus.Frame.{Frame, frame_boundary, validate_frame_fields}
use mocktrue.Fecbus.Frame.RoundTrip.{Unit-cases}
use mocktrue.Fecbus.Frame.{frame_body, encode_frame, decode_frame, frame_of_raw}

-- The last three bytes of a frame, apart.
split_three :
    (n : ℕ) (raw : List ℕ)
    → length raw ≡ n + 3
    → raw ≡ take n raw ++ (get_or raw n 0 ∷ get_or raw (suc n) 0 ∷ get_or raw (suc (suc n)) 0 ∷ [])
split_three zero [] h = absurd (omega arith)
split_three zero (a ∷ []) h = absurd (omega arith)
split_three zero (a ∷ b ∷ []) h = absurd (omega arith)
split_three zero (a ∷ b ∷ c ∷ []) h = refl
split_three zero (a ∷ b ∷ c ∷ d ∷ rest) h = absurd (omega arith)
split_three (suc n) [] h = absurd (omega arith)
split_three (suc n) (a ∷ rest) h = ap (λ t. a ∷ t) (split_three n rest (omega arith))

-- The first byte of a list, apart.
uncons : (xs : List ℕ) → 0 < length xs → xs ≡ get_or xs 0 0 ∷ drop 1 xs
uncons [] h = absurd (omega arith)
uncons (x ∷ xs) h = refl

-- The header and the data that follow it.
take_header :
    (n : ℕ) (raw : List ℕ)
    → 8 ≤ length raw
    → take (suc (suc (suc (suc (suc (suc (suc (suc n)))))))) raw
      ≡ get_or raw 0 0
        ∷ get_or raw 1 0
        ∷ get_or raw 2 0
        ∷ get_or raw 3 0
        ∷ get_or raw 4 0
        ∷ get_or raw 5 0
        ∷ get_or raw 6 0
        ∷ get_or raw 7 0
        ∷ take n (drop 8 raw)
take_header n (a ∷ b ∷ c ∷ d ∷ e ∷ f ∷ g ∷ h ∷ rest) l = refl
take_header n [] l = absurd (omega arith)
take_header n (a ∷ []) l = absurd (omega arith)
take_header n (a ∷ b ∷ []) l = absurd (omega arith)
take_header n (a ∷ b ∷ c ∷ []) l = absurd (omega arith)
take_header n (a ∷ b ∷ c ∷ d ∷ []) l = absurd (omega arith)
take_header n (a ∷ b ∷ c ∷ d ∷ e ∷ []) l = absurd (omega arith)
take_header n (a ∷ b ∷ c ∷ d ∷ e ∷ f ∷ []) l = absurd (omega arith)
take_header n (a ∷ b ∷ c ∷ d ∷ e ∷ f ∷ g ∷ []) l = absurd (omega arith)

-- What the checks of `DecodeFrame` have established when it succeeds.
record Accepted (raw : List ℕ) (now : ℕ) (f : Frame) : Type 0 where
  long : length raw ≡ 11 + get_or raw 7 0
  few : get_or raw 7 0 ≤ 8
  starts : get_or raw 0 0 ≡ frame_boundary
  ends : get_or raw (length raw - 1) 0 ≡ frame_boundary
  checked :
      le_u16 (get_or raw (length raw - 3) 0) (get_or raw (length raw - 2) 0)
      ≡ crc16 (take (length raw - 3) raw)
  valid : validate_frame_fields (frame_of_raw raw now) ≡ ok tt
  same : f ≡ frame_of_raw raw now

accepted : (raw : List ℕ) (now : ℕ) (f : Frame) → decode_frame raw now ≡ ok f → Accepted raw now f
unfolding decode_frame
accepted raw now f e = ground (arith, Unit-cases (validate_frame_fields (frame_of_raw raw now)))

module _ (raw : List ℕ) (now : ℕ) (f : Frame) (bytes : All IsByte raw)
    (a : Accepted raw now f) where
  dlc : ℕ
  dlc = get_or raw 7 0

  body : List ℕ
  body = take (length raw - 3) raw

  IsByte-at : (i : ℕ) → IsByte (get_or raw i 0)
  IsByte-at i = All-get_or IsByte raw i 0 bytes (omega arith)

  body-frame_body : body ≡ frame_body (frame_of_raw raw now)
  unfolding body dlc frame_body frame_of_raw
  body-frame_body =
      ap (λ n. take n raw) past
      ∙ take_header dlc raw (omega (arith, a.long))
      ∙ ap₂
          (λ s n.
            s
            ∷ get_or raw 1 0
            ∷ get_or raw 2 0
            ∷ get_or raw 3 0
            ∷ get_or raw 4 0
            ∷ get_or raw 5 0
            ∷ get_or raw 6 0
            ∷ n
            ∷ take dlc (drop 8 raw))
          a.starts count
    where
      past : length raw - 3 ≡ suc (suc (suc (suc (suc (suc (suc (suc dlc)))))))
      past = omega (arith, a.long)

      count : dlc ≡ length (take dlc (drop 8 raw)) % 256
      count = omega (
        arith,
        a.few,
        a.long,
        length-drop 8 raw,
        length-take dlc (drop 8 raw) (omega (arith, a.long, length-drop 8 raw)),
      )

  raw_parts :
      raw
      ≡ body
        ++ (get_or raw (length raw - 3) 0
            ∷ get_or raw (length raw - 2) 0
            ∷ get_or raw (length raw - 1) 0
            ∷ [])
  unfolding body
  raw_parts =
      split_three (length raw - 3) raw (omega (arith, a.long))
      ∙ ap₂ (λ i j. body ++ (get_or raw (length raw - 3) 0 ∷ get_or raw i 0 ∷ get_or raw j 0 ∷ []))
          (omega (arith, a.long)) (omega (arith, a.long))

  trailer_kept :
      (lo (crc16 body) ≡ get_or raw (length raw - 3) 0)
      × (hi (crc16 body) ≡ get_or raw (length raw - 2) 0)
  unfolding body
  trailer_kept = (
    omega (arith, value, a.checked, IsByte-at (length raw - 3), IsByte-at (length raw - 2)),
    omega (arith, value, a.checked, IsByte-at (length raw - 3), IsByte-at (length raw - 2)),
  )
    where
      value :
          le_u16 (get_or raw (length raw - 3) 0) (get_or raw (length raw - 2) 0)
          ≡ get_or raw (length raw - 2) 0 * 256 + get_or raw (length raw - 3) 0
      value = le_u16_value _ _ (IsByte-at (length raw - 3)) (IsByte-at (length raw - 2))

  rebuilt : body ++ (lo (crc16 body) ∷ hi (crc16 body) ∷ frame_boundary ∷ []) ≡ raw
  rebuilt = rw (trailer_kept.0, trailer_kept.1, ← a.ends) (sym raw_parts)

  encode_frame_of_raw : encode_frame (frame_of_raw raw now) ≡ ok raw
  unfolding encode_frame
  encode_frame_of_raw = rw (a.valid, ← body-frame_body) (ap ok rebuilt)

-- Each frame that `DecodeFrame` makes of bytes that it accepts is encoded to these bytes, and
-- carries them, the checksum flag and the time.
pub encode_frame-decode_frame :
    (raw : List ℕ) (now : ℕ) (f : Frame)
    → All IsByte raw
    → decode_frame raw now ≡ ok f
    → (encode_frame f ≡ ok raw) × (f.raw ≡ raw) × (f.crc_ok ≡ true) × (f.timestamp ≡ now)
unfolding frame_of_raw
encode_frame-decode_frame raw now f bytes e =
    let a = accepted raw now f e in
    (
      ap encode_frame a.same ∙ encode_frame_of_raw raw now f bytes a,
      ap (λ g. g.raw) a.same,
      ap (λ g. g.crc_ok) a.same,
      ap (λ g. g.timestamp) a.same,
    )
