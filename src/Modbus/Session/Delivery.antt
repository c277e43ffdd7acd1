-- ===== src/Modbus/Session/Delivery.antt =====
-- A frame of either mode, read by `readFrame` of modbus/session.go from the pieces that a cable
-- brings.
use mocktrue.Base.{ℕ, ◌+◌, ◌*◌, ◌≤◌, ◌≡◌, ◌≢◌, ◌⊎◌, refl, inl, inr, List, [], ◌∷◌, ◌++◌, map}
use mocktrue.Base.{
  true, false, some, ok, length, length-append, All, ==_ne, arith, text_eq, to_lower, to_upper,
  Text,
}
use mocktrue.Base.Hex.{encode_hex, length-to_upper-encode_hex}
use mocktrue.Modbus.Pdu.{Pdu, bytes}
use mocktrue.Modbus.Frame.{
  DecodedFrame, rtu, ascii, crlf, encode_frame, encode_ascii, encode_rtu, decode_frame,
  normalize_frame_mode,
}
use mocktrue.Modbus.Frame.RoundTrip.{IsWire, decoded, decode_frame-encode_frame}
use mocktrue.Modbus.Checksum.{crc16, lrc}
use mocktrue.Modbus.Words.{lo, hi}
use mocktrue.Modbus.Session.{Event, arrivals, complete, read_frame}
use mocktrue.Modbus.Session.Reading.{encodes, read_frame-pieces, pieces_read, Unread, concat}

rtu_normal :
    (normalize_frame_mode rtu ≡ rtu) × (text_eq rtu rtu ≡ true) × (text_eq rtu ascii ≡ false)
unfolding normalize_frame_mode to_lower text_eq
rtu_normal = (refl, refl, refl)

encodes_rtu :
    (unit : ℕ) (pdu : Pdu)
    → unit ≢ 0
    → encode_frame rtu unit pdu ≡ ok (encode_rtu (unit ∷ bytes pdu))
unfolding encode_frame
encodes_rtu unit pdu nz = rw (==_ne unit 0 nz, rtu_normal.0, rtu_normal.1) refl

complete-rtu :
    (frame : List ℕ) (d : DecodedFrame)
    → decode_frame rtu frame ≡ ok d
    → complete rtu frame ≡ some (ok (frame, d))
unfolding complete
complete-rtu frame d e = rw (complete, rtu_normal.2, e) refl

-- How a frame that is written arrives at the other end: the pieces that the reads give, none of more
-- than the 256 bytes that one read takes.
pub record Cable : Type 0 where
  pub pieces : List ℕ → List (List ℕ)
  pub fits : (frame : List ℕ) → All (λ p. length p ≤ 256) (pieces frame)
  pub whole : (frame : List ℕ) → concat (pieces frame) ≡ frame

abbrev pub arriving : Cable → List ℕ → List Event
arriving cable frame = arrivals (cable.pieces frame) (cable.fits frame)

-- With a payload of at most 254 bytes, the unit included, the frame is sent and read.
unfoldable pub Delivered : Cable → Text → ℕ → Pdu → Type 0
Delivered cable mode unit pdu =
    (frame : List ℕ) × (left : List Event) × (encode_frame mode unit pdu ≡ ok frame)
    × (read_frame mode [] (arriving cable frame) ≡ some (ok (frame, decoded mode unit pdu), left))

length-encode_ascii : (payload : List ℕ) → length (encode_ascii payload) ≡ 2 * length payload + 5
unfolding encode_ascii
length-encode_ascii payload =
    let body = payload ++ (lrc payload ∷ []) in
    omega (
      arith,
      length-append (map to_upper (encode_hex body)) crlf,
      length-to_upper-encode_hex body,
      length-append payload (lrc payload ∷ []),
    )

length-encode_rtu : (payload : List ℕ) → length (encode_rtu payload) ≡ length payload + 2
unfolding encode_rtu
length-encode_rtu payload =
    omega (arith, length-append payload (lo (crc16 payload) ∷ hi (crc16 payload) ∷ []))

Delivered-rtu :
    (cable : Cable) (unit : ℕ) (pdu : Pdu)
    → ((frame : List ℕ) → length frame ≤ 256 → Unread rtu [] (cable.pieces frame))
    → unit ≢ 0
    → IsWire unit pdu
    → length (unit ∷ bytes pdu) ≤ 254
    → Delivered cable rtu unit pdu
unfolding Delivered encode_rtu
Delivered-rtu cable unit pdu unread nz w short =
    let payload = unit ∷ bytes pdu in
    let sent = encodes_rtu unit pdu nz in
    let (frame', e', d) = decode_frame-encode_frame rtu unit pdu (inl rtu_normal.0) nz w in
    let same : frame' ≡ encode_rtu payload = cc in
    let decodes : decode_frame rtu (encode_rtu payload) ≡ ok (decoded rtu unit pdu) =
      rw same at rw rtu_normal.0 at d in
    let frame = encode_rtu payload in
    let (left, read) =
      pieces_read rtu frame _ (complete-rtu frame _ decodes)
        (omega (arith, length-encode_rtu payload)) (cable.pieces frame) (cable.fits frame) []
        (unread frame (omega (arith, length-encode_rtu payload))) (cable.whole frame) (λ e. cc) in
    (frame, left, sent, read)

Delivered-ascii :
    (cable : Cable) (unit : ℕ) (pdu : Pdu)
    → unit ≢ 0
    → IsWire unit pdu
    → length (unit ∷ bytes pdu) ≤ 254
    → Delivered cable ascii unit pdu
unfolding Delivered
Delivered-ascii cable unit pdu nz w short =
    let payload = unit ∷ bytes pdu in
    let sent = encodes unit pdu nz in
    let frame = encode_ascii payload in
    let (left, read) =
      read_frame-pieces unit pdu frame (cable.pieces frame) nz w sent
        (omega (arith, length-encode_ascii payload)) (cable.whole frame) (cable.fits frame) in
    (frame, left, sent, read)

pub delivered :
    (cable : Cable) (mode : Text) (unit : ℕ) (pdu : Pdu)
    → (mode ≡ rtu) ⊎ (mode ≡ ascii)
    → ((frame : List ℕ) → mode ≡ rtu → length frame ≤ 256 → Unread rtu [] (cable.pieces frame))
    → unit ≢ 0
    → IsWire unit pdu
    → length (unit ∷ bytes pdu) ≤ 254
    → Delivered cable mode unit pdu
delivered cable mode unit pdu (inl m) unread nz w short =
    rw m (Delivered-rtu cable unit pdu (λ frame. unread frame m) nz w short)
delivered cable mode unit pdu (inr m) unread nz w short =
    rw m (Delivered-ascii cable unit pdu nz w short)
