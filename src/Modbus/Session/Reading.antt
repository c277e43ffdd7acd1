-- ===== src/Modbus/Session/Reading.antt =====
-- `readFrame` of modbus/session.go puts the pieces of a frame together.
use mocktrue.Base.{
  ℕ, ◌/◌, ◌%◌, ◌<◌, ◌≤◌, ◌≡◌, ◌≢◌, ◌⊎◌, refl, ap, ◌∙◌, inl, inr, List, [], ◌∷◌, ◌++◌, map,
  append_assoc, append-nil,
}
use mocktrue.Base.{
  true, false, ◌==◌, ltb, ltb-false, Option, none, some, ok, length, length-append, All, All-append,
  ==_ne, arith, text_eq, to_upper, to_lower, Text,
}
use mocktrue.Base.Hex.{IsByte, encode_hex, hex_digit}
use mocktrue.Modbus.Pdu.{Pdu, bytes}
use mocktrue.Modbus.Frame.{
  DecodedFrame, rtu, ascii, crlf, encode_frame, encode_ascii, decode_frame, normalize_frame_mode,
}
use mocktrue.Modbus.Frame.RoundTrip.{IsWire, decoded, decode_frame-encode_frame}
use mocktrue.Modbus.Checksum.{lrc}
use mocktrue.Modbus.Checksum.Laws.{lrc-IsByte}
use mocktrue.Modbus.Session.{
  Event, through_crlf, Frames, decoded_as, complete, read_frame, max_frame_bytes, arrivals,
}

abbrev NotCr : ℕ → Type 0
NotCr c = (c == 13) ≡ false

digit-NotCr : (d : ℕ) → d < 16 → NotCr (to_upper (hex_digit d))
unfolding to_upper hex_digit
digit-NotCr d h = ground arith

hex-NotCr : (bs : List ℕ) → All IsByte bs → All NotCr (map to_upper (encode_hex bs))
unfolding encode_hex
hex-NotCr [] h = tt
hex-NotCr (b ∷ bs) (lt, h) =
    (digit-NotCr (b / 16) (omega arith), (digit-NotCr (b % 16) (omega arith), hex-NotCr bs h))

put_front : ℕ → Option (List ℕ) → Option (List ℕ)
put_front a none = none
put_front a (some taken) = some (a ∷ taken)

through_other : (a : ℕ) (s : List ℕ) → NotCr a → through_crlf (a ∷ s) ≡ put_front a (through_crlf s)
unfolding through_crlf put_front
through_other a [] h = refl
through_other a (b ∷ s) h =
    rw h
      (elim (through_crlf (b ∷ s))
        as (λ o.
          (elim o as (λ _. Option (List ℕ)) [ none ↦ none | some taken ↦ some (a ∷ taken) ])
          ≡ put_front a o) [ none ↦ refl | some taken ↦ refl ])

through_whole : (xs : List ℕ) → All NotCr xs → through_crlf (xs ++ crlf) ≡ some (xs ++ crlf)
unfolding through_crlf put_front
through_whole [] h = refl
through_whole (x ∷ xs) (n, h) =
    through_other x (xs ++ crlf) n ∙ ap (put_front x) (through_whole xs h)

through_part :
    (xs : List ℕ)
    → All NotCr xs
    → (p : List ℕ) (q : ℕ) (qs : List ℕ) → p ++ (q ∷ qs) ≡ xs ++ crlf
    → through_crlf p ≡ none
unfolding through_crlf put_front
through_part xs h [] q qs e = refl
through_part [] h (a ∷ []) q qs e = refl
through_part [] h (a ∷ b ∷ []) q qs e = absurd cc
through_part [] h (a ∷ b ∷ c ∷ p) q qs e = absurd cc
through_part (x ∷ xs) h (a ∷ p) q qs e =
    let same : a ≡ x = cc in
    let rest : p ++ (q ∷ qs) ≡ xs ++ crlf = cc in
    through_other a p (rw same h.0) ∙ ap (put_front a) (through_part xs h.1 p q qs rest)

unfoldable pub concat : List (List ℕ) → List ℕ
concat [] = []
concat (xs ∷ xss) = xs ++ concat xss

List-cases : (xs : List ℕ) → (xs ≡ []) ⊎ ((x : ℕ) × (ys : List ℕ) × (xs ≡ x ∷ ys))
List-cases [] = inl refl
List-cases (x ∷ xs) = inr (x, xs, refl)

-- Behind each piece but the last ones, what has been read is no frame yet.
unfoldable pub Unread : Text → List ℕ → List (List ℕ) → Type 0
Unread mode buf [] = Unit
Unread mode buf (p ∷ pieces) =
    ((concat pieces ≡ []) ⊎ (complete mode (buf ++ p) ≡ none)) × Unread mode (buf ++ p) pieces

-- Pieces that make up a frame are read as that frame when no shorter part of it is complete.
pub pieces_read :
    (mode : Text) (frame : List ℕ) (result : Frames)
    → complete mode frame ≡ some result
    → length frame ≤ 513
    → (pieces : List (List ℕ)) (fits : All (λ p. length p ≤ 256) pieces) (buf : List ℕ)
    → Unread mode buf pieces
    → buf ++ concat pieces ≡ frame
    → buf ≢ frame
    → (left : List Event) × (read_frame mode buf (arrivals pieces fits) ≡ some (result, left))
unfolding read_frame concat arrivals Unread
pieces_read mode frame result whole short [] fits buf u e n = absurd (n (rw append-nil at e))
pieces_read mode frame result whole short ([] ∷ pieces) (fit, fits) buf u e n =
    pieces_read mode frame result whole short pieces fits buf (rw append-nil at u.1) e n
pieces_read mode frame result whole short ((b ∷ bs) ∷ pieces) (fit, fits) buf u e n =
    let more = buf ++ (b ∷ bs) in
    let e' : more ++ concat pieces ≡ frame = rw (append_assoc buf) e in
    let room : ltb max_frame_bytes (length more) ≡ false =
      ltb-false 513 (length more)
        (omega (arith, short, ap length e', length-append more (concat pieces))) in
    elim (List-cases (concat pieces)) [
      | inl q ↦
          let all : more ≡ frame = rw (q, append-nil) at e' in
          let now : complete mode more ≡ some result = ap (complete mode) all ∙ whole in
          (arrivals pieces fits, rw (read_frame, room, now) refl)
      | inr (x, xs, q) ↦
          let e'' : more ++ (x ∷ xs) ≡ frame = rw q at e' in
          let not_yet : complete mode more ≡ none = elim u.0 [ inl z ↦ absurd cc | inr h ↦ h ] in
          let unequal : more ≢ frame =
            λ z. omega (arith, ap length e'', ap length z, length-append more (x ∷ xs)) in
          let (left, read) =
            pieces_read mode frame result whole short pieces fits more u.1 e' unequal in
          (left, rw (read_frame, room, not_yet) read)
    ]

ascii_normal :
    (normalize_frame_mode ascii ≡ ascii)
    × (text_eq ascii ascii ≡ true)
    × (text_eq ascii rtu ≡ false)
unfolding normalize_frame_mode to_lower text_eq
ascii_normal = (refl, refl, refl)

complete_frame :
    (frame : List ℕ) (d : DecodedFrame)
    → through_crlf frame ≡ some frame
    → decode_frame ascii frame ≡ ok d
    → complete ascii frame ≡ some (ok (frame, d))
unfolding complete
complete_frame frame d t e = rw (complete, ascii_normal.1, t, decoded_as, e) refl

incomplete : (p : List ℕ) → through_crlf p ≡ none → complete ascii p ≡ none
unfolding complete
incomplete p t = rw (complete, ascii_normal.1, t) refl

pub encodes :
    (unit : ℕ) (pdu : Pdu)
    → unit ≢ 0
    → encode_frame ascii unit pdu ≡ ok (encode_ascii (unit ∷ bytes pdu))
unfolding encode_frame
encodes unit pdu nz = rw (==_ne unit 0 nz, ascii_normal.0, ascii_normal.1, ascii_normal.2) refl

-- The ASCII frame of a PDU.
encoded_shape :
    (unit : ℕ) (pdu : Pdu) (frame : List ℕ)
    → unit ≢ 0
    → IsWire unit pdu
    → encode_frame ascii unit pdu ≡ ok frame
    → (xs : List ℕ) × All NotCr xs × (frame ≡ xs ++ crlf)
unfolding encode_frame encode_ascii
encoded_shape unit pdu frame nz w e =
    let right = encodes unit pdu nz in
    let shape : frame ≡ encode_ascii (unit ∷ bytes pdu) = cc in
    let body = (unit ∷ bytes pdu) ++ (lrc (unit ∷ bytes pdu) ∷ []) in
    (
      b':' ∷ map to_upper (encode_hex body),
      (
        refl,
        hex-NotCr body (
            All-append IsByte (unit ∷ bytes pdu) (lrc (unit ∷ bytes pdu) ∷ []) w
              (lrc-IsByte (unit ∷ bytes pdu), tt)),
      ),
      shape,
    )

-- The end of an ASCII frame stands at its end only.
ascii-Unread :
    (xs : List ℕ) (pieces : List (List ℕ)) (buf : List ℕ)
    → All NotCr xs
    → buf ++ concat pieces ≡ xs ++ crlf
    → Unread ascii buf pieces
unfolding Unread concat
ascii-Unread xs [] buf plain e = tt
ascii-Unread xs (p ∷ pieces) buf plain e =
    let e' : (buf ++ p) ++ concat pieces ≡ xs ++ crlf = rw (append_assoc buf) e in
    (
      elim (List-cases (concat pieces)) [
        | inl z ↦ inl z
        | inr (y, ys, q) ↦
            inr (incomplete (buf ++ p) (through_part xs plain (buf ++ p) y ys (rw q at e')))
      ],
      ascii-Unread xs pieces (buf ++ p) plain e',
    )

-- An ASCII frame that comes in any number of pieces, each of at most the 256 bytes of one read, is read as that frame, with the
-- unit and the PDU that were encoded, when it is no longer than the limit of 513 bytes.
pub read_frame-pieces :
    (unit : ℕ) (pdu : Pdu) (frame : List ℕ) (pieces : List (List ℕ))
    → unit ≢ 0
    → IsWire unit pdu
    → encode_frame ascii unit pdu ≡ ok frame
    → length frame ≤ 513
    → concat pieces ≡ frame
    → (fits : All (λ p. length p ≤ 256) pieces)
    → (left : List Event) × (read_frame ascii [] (arrivals pieces fits)
        ≡ some (ok (frame, decoded ascii unit pdu), left))
read_frame-pieces unit pdu frame pieces nz w e short all fits =
    let (xs, plain, shape) = encoded_shape unit pdu frame nz w e in
    let (frame', e', d) = decode_frame-encode_frame ascii unit pdu (inr ascii_normal.0) nz w in
    let same : frame' ≡ frame = cc in
    let decodes : decode_frame ascii frame ≡ ok (decoded ascii unit pdu) =
      rw same at rw ascii_normal.0 at d in
    let ends : through_crlf frame ≡ some frame = rw shape (through_whole xs plain) in
    pieces_read ascii frame (ok (frame, decoded ascii unit pdu))
      (complete_frame frame _ ends decodes) short pieces fits []
      (ascii-Unread xs pieces [] plain (all ∙ shape)) all
      (λ z. omega (arith, ap length (z ∙ shape), length-append xs crlf))
