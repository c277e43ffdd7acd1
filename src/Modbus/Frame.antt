-- ===== src/Modbus/Frame.antt =====
-- `EncodeFrame` and `DecodeFrame` of modbus/protocol.go: the RTU and ASCII serial frames.
pub mod RoundTrip
pub mod Integrity
mod Tests
use mocktrue.Base.{ℕ, ◌+◌, ◌-◌, ◌*◌, ◌%◌, List, [], ◌∷◌, ◌++◌, Option, none, some, map}
use mocktrue.Base.{ltb, ◌==◌, not, ◌||◌, if◌then◌else◌, length, get_or, take, drop}
use mocktrue.Base.{Result, ok, err, ◌>>=◌, ◌>>◌, fail_if, or_err}
use mocktrue.Base.{Text, codes, text_eq, to_lower, to_upper, has_prefix, has_suffix}
use mocktrue.Base.{trim_prefix, trim_suffix}
use mocktrue.Base.Hex.{encode_hex, decode_hex}
use mocktrue.Modbus.Words.{hi, lo, le_u16}
use mocktrue.Modbus.Pdu.{Pdu, bytes}
use mocktrue.Modbus.Checksum.{crc16, lrc}

-- The errors that the two functions return, by their messages.
pub data Error : Type 0 where
  unit_id unsupported_mode rtu_too_short rtu_crc : Error
  ascii_delimiters ascii_hex_length ascii_hex ascii_lrc payload_too_short : Error

abbrev pub rtu : Text
rtu = codes "rtu"

abbrev pub ascii : Text
ascii = codes "ascii"

abbrev pub crlf : Text
crlf = 13 ∷ 10 ∷ []

pub record DecodedFrame : Type 0 where
  pub mode : Text
  pub unit : ℕ
  pub pdu : Pdu

unfoldable pub normalize_frame_mode : Text → Text
normalize_frame_mode [] = rtu
normalize_frame_mode (c ∷ cs) = map to_lower (c ∷ cs)

unfoldable pub encode_rtu : List ℕ → List ℕ
encode_rtu payload = let crc = crc16 payload in payload ++ (lo crc ∷ hi crc ∷ [])

unfoldable pub encode_ascii : List ℕ → List ℕ
encode_ascii payload =
    let body = payload ++ (lrc payload ∷ []) in b':' ∷ (map to_upper (encode_hex body) ++ crlf)

unfoldable pub encode_frame : Text → ℕ → Pdu → Result Error (List ℕ)
encode_frame mode unit pdu = do
  fail_if (unit == 0) unit_id
  let payload = unit ∷ bytes pdu
  let mode' = normalize_frame_mode mode
  if text_eq mode' rtu
      then ok (encode_rtu payload)
      else if text_eq mode' ascii
      then ok (encode_ascii payload)
      else err unsupported_mode

pub decoded_from_payload : Text → List ℕ → Result Error DecodedFrame
decoded_from_payload mode (unit ∷ function ∷ rest) =
    ok (record { mode = mode; unit = unit; pdu = record { function = function; payload = rest } })
decoded_from_payload mode (_ ∷ []) = err payload_too_short
decoded_from_payload mode [] = err payload_too_short

pub decode_rtu : List ℕ → Result Error DecodedFrame
decode_rtu frame = do
  fail_if (ltb (length frame) 4) rtu_too_short
  let n = length frame
  let payload = take (n - 2) frame
  let got = le_u16 (get_or frame (n - 2) 0) (get_or frame (n - 1) 0)
  fail_if (not (got == crc16 payload)) rtu_crc
  decoded_from_payload rtu payload

pub decode_ascii : List ℕ → Result Error DecodedFrame
decode_ascii text = do
  fail_if (not (has_prefix text (b':' ∷ [])) || not (has_suffix text crlf)) ascii_delimiters
  let body_text = trim_suffix (trim_prefix text (b':' ∷ [])) crlf
  fail_if (ltb (length body_text) 6 || not (length body_text % 2 == 0)) ascii_hex_length
  body ← or_err (decode_hex body_text) ascii_hex
  let payload = take (length body - 1) body
  fail_if (not (get_or body (length body - 1) 0 == lrc payload)) ascii_lrc
  decoded_from_payload ascii payload

unfoldable pub decode_frame : Text → List ℕ → Result Error DecodedFrame
decode_frame mode frame =
    let mode' = normalize_frame_mode mode in
    if text_eq mode' rtu
    then decode_rtu frame
    else if text_eq mode' ascii
    then decode_ascii frame
    else err unsupported_mode
