-- ===== src/Modbus/Frame/RoundTrip.antt =====
-- `DecodeFrame` after `EncodeFrame`, in both serial formats.
use mocktrue.Base.{ℕ, ◌≤◌, ◌≡◌, ◌≢◌, refl, sym, ◌∙◌, arith}
use mocktrue.Base.{List, [], ◌∷◌, ◌++◌, map, false, Bool-cases}
use mocktrue.Base.{◌==◌, length, All, ok, err, inl, inr, ◌⊎◌, ==_ne, false, text_eq→eq}
use mathlib.Core.Bool.{false≢true}
use mocktrue.Modbus.Frame.{unit_id, unsupported_mode}
use mocktrue.Base.{
  Text, text_eq, text_eq_refl, length-append, take-append, to_upper, has_prefix-cons,
  has_suffix-append,
}
use mocktrue.Base.{trim_prefix-cons, trim_suffix-append, All-append}
use mocktrue.Base.{back_one, back_two, back_last, get_or-append_first, get_or-append_second}
use mocktrue.Base.Hex.{IsByte, encode_hex, decode_hex-to_upper, length-to_upper-encode_hex}
use mocktrue.Modbus.Words.{hi, lo, le_u16-lo}
use mocktrue.Modbus.Pdu.{Pdu, bytes}
use mocktrue.Modbus.Checksum.{crc16, lrc}
use mocktrue.Modbus.Checksum.Laws.{crc16-IsU16, lrc-IsByte}
use mocktrue.Modbus.Frame.{Error, DecodedFrame, rtu, ascii, crlf, normalize_frame_mode}
use mocktrue.Modbus.Frame.{encode_rtu, encode_ascii, encode_frame}
use mocktrue.Modbus.Frame.{decoded_from_payload, decode_rtu, decode_ascii, decode_frame}

-- Every byte of the payload is a byte.
abbrev pub IsWire : ℕ → Pdu → Type 0
IsWire unit pdu = All IsByte (unit ∷ bytes pdu)

abbrev pub decoded : Text → ℕ → Pdu → DecodedFrame
decoded mode unit pdu = record { mode = mode; unit = unit; pdu = pdu }

decode_rtu-encode_rtu :
    (payload : List ℕ)
    → All IsByte payload
    → 2 ≤ length payload
    → decode_rtu (encode_rtu payload) ≡ decoded_from_payload rtu payload
unfolding decode_rtu encode_rtu
decode_rtu-encode_rtu payload h len = ground (
  arith,
  length-append payload (low ∷ high ∷ []),
  back_one payload low high,
  back_two payload low high,
  take-append payload (low ∷ high ∷ []),
  get_or-append_first payload low (high ∷ []) 0,
  get_or-append_second payload low high [] 0,
  le_u16-lo crc (crc16-IsU16 payload h),
)
  where
    crc : ℕ
    crc = crc16 payload

    low : ℕ
    low = lo crc

    high : ℕ
    high = hi crc

decode_ascii-encode_ascii :
    (payload : List ℕ)
    → All IsByte payload
    → 2 ≤ length payload
    → decode_ascii (encode_ascii payload) ≡ decoded_from_payload ascii payload
unfolding decode_ascii encode_ascii
decode_ascii-encode_ascii payload h len =
    rw
      (
        has_prefix-cons b':' (text ++ crlf),
        has_suffix-append (b':' ∷ text) crlf,
        trim_prefix-cons b':' (text ++ crlf),
        trim_suffix-append text crlf,
      )
      (ground (
        arith,
        length-to_upper-encode_hex body,
        length-append payload (lrc payload ∷ []),
        decode_hex-to_upper body (All-append IsByte payload _ h (lrc-IsByte payload, tt)),
        back_last payload (lrc payload),
        take-append payload (lrc payload ∷ []),
        get_or-append_first payload (lrc payload) [] 0,
      ))
  where
    body : List ℕ
    body = payload ++ (lrc payload ∷ [])

    text : Text
    text = map to_upper (encode_hex body)

abbrev pub Supported : Text → Type 0
Supported mode = (normalize_frame_mode mode ≡ rtu) ⊎ (normalize_frame_mode mode ≡ ascii)

decoded_payload :
    (mode : Text) (unit : ℕ) (pdu : Pdu)
    → decoded_from_payload mode (unit ∷ bytes pdu) ≡ ok (decoded mode unit pdu)
unfolding decoded_from_payload bytes
decoded_payload mode unit pdu = refl

other_mode : text_eq ascii rtu ≡ false
unfolding text_eq
other_mode = refl

-- In each supported mode `EncodeFrame` accepts every unit but 0, and `DecodeFrame` gives back the
-- unit and the PDU that it was given, where these are bytes.
pub decode_frame-encode_frame :
    (mode : Text) (unit : ℕ) (pdu : Pdu)
    → Supported mode
    → unit ≢ 0
    → IsWire unit pdu
    → (frame : List ℕ) × (encode_frame mode unit pdu ≡ ok frame)
      × (decode_frame mode frame ≡ ok (decoded (normalize_frame_mode mode) unit pdu))
unfolding encode_frame decode_frame bytes
decode_frame-encode_frame mode unit pdu (inl e) nz h = (
  encode_rtu (unit ∷ bytes pdu),
  rw (==_ne unit 0 nz, e, text_eq_refl rtu),
  rw (e, text_eq_refl rtu)
      (decode_rtu-encode_rtu (unit ∷ bytes pdu) h (omega arith) ∙ decoded_payload rtu unit pdu),
)
decode_frame-encode_frame mode unit pdu (inr e) nz h = (
  encode_ascii (unit ∷ bytes pdu),
  rw (==_ne unit 0 nz, e, text_eq_refl ascii, other_mode),
  rw (e, text_eq_refl ascii, other_mode)
      (decode_ascii-encode_ascii (unit ∷ bytes pdu) h (omega arith)
        ∙ decoded_payload ascii unit pdu),
)

not_text : (s t : Text) → text_eq s t ≡ false → ¬ (s ≡ t)
not_text s t h e = elim (false≢true (sym h ∙ rw e (text_eq_refl t))) [ ]

Supported-cases :
    (mode : Text)
    → Supported mode
      ⊎ ((text_eq (normalize_frame_mode mode) rtu ≡ false)
          × (text_eq (normalize_frame_mode mode) ascii ≡ false)
          × ¬ Supported mode)
Supported-cases mode = elim (Bool-cases (text_eq m rtu)) [
  | inl r ↦ inl (inl (text_eq→eq m rtu r))
  | inr r ↦ elim (Bool-cases (text_eq m ascii)) [
    | inl a ↦ inl (inr (text_eq→eq m ascii a))
    | inr a ↦ inr (r, a, elim [ inl e ↦ not_text m rtu r e | inr e ↦ not_text m ascii a e ])
  ]
]
  where
    m : Text
    m = normalize_frame_mode mode

Supported-ok :
    (mode : Text) (unit : ℕ) (pdu : Pdu)
    → unit ≢ 0
    → Supported mode
    → (e : Error) → encode_frame mode unit pdu ≢ err e
unfolding encode_frame
Supported-ok mode unit pdu nz (inl p) e h = cc (rw (==_ne unit 0 nz, p, text_eq_refl rtu) at h)
Supported-ok mode unit pdu nz (inr p) e h =
    cc (rw (==_ne unit 0 nz, p, text_eq_refl ascii, other_mode) at h)

-- `EncodeFrame` refuses unit 0 and unknown modes, and these alone.
pub encode_frame_errors :
    (mode : Text) (unit : ℕ) (pdu : Pdu) (e : Error)
    → encode_frame mode unit pdu ≡ err e
    → ((unit ≡ 0) × (e ≡ unit_id)) ⊎ ((unit ≢ 0) × ¬ Supported mode × (e ≡ unsupported_mode))
unfolding encode_frame
encode_frame_errors mode unit pdu e h = elim (Bool-cases (unit == 0)) [
  | inl z ↦ inl (ground arith, ground arith)
  | inr nz ↦ elim (Supported-cases mode) [
    | inl s ↦ absurd (Supported-ok mode unit pdu (λ u. cc) s e h)
    | inr (r, a, n) ↦ inr (λ u. cc, n, ground arith)
  ]
]
