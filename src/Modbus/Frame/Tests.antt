-- ===== src/Modbus/Frame/Tests.antt =====
-- Frames on sample requests.
use mocktrue.Base.{
  ℕ, ◌≡◌, refl, arith, List, [], ◌∷◌, ◌++◌, ok, err, inl, inr, Text, codes, to_lower, text_eq,
}
use mocktrue.Modbus.Words.{le_u16}
use mocktrue.Modbus.Pdu.{Pdu, bytes}
use mocktrue.Modbus.Checksum.{crc16}
use mocktrue.Modbus.Frame.{unit_id, rtu_crc, rtu, normalize_frame_mode}
use mocktrue.Modbus.Frame.{encode_frame, decode_frame, decode_rtu, decoded_from_payload}
use mocktrue.Modbus.Frame.RoundTrip.{Supported, IsWire, decoded, decode_frame-encode_frame}
use mocktrue.Modbus.Frame.Integrity.{decode_frame_changed, encode_frame-decode_rtu}

abbrev read_two : Pdu
read_two = record { function = 3; payload = 0 ∷ 1 ∷ 0 ∷ 2 ∷ [] }

abbrev read_two_front : List ℕ
read_two_front = 17 ∷ 3 ∷ []

abbrev read_two_back : List ℕ
read_two_back = 1 ∷ 0 ∷ 2 ∷ 0x97 ∷ 0x5b ∷ []

abbrev rtu_upper : Text
rtu_upper = codes "RTU"

abbrev ascii_upper : Text
ascii_upper = codes "ASCII"

rtu_upper-Supported : Supported rtu_upper
unfolding normalize_frame_mode to_lower
rtu_upper-Supported = inl refl

ascii_upper-Supported : Supported ascii_upper
unfolding normalize_frame_mode to_lower
ascii_upper-Supported = inr refl

read_two-IsWire : IsWire 17 read_two
unfolding bytes
read_two-IsWire = ground arith

decoded-read_two :
    decode_frame rtu (read_two_front ++ (0 ∷ read_two_back)) ≡ ok (decoded rtu 17 read_two)
unfolding decode_frame normalize_frame_mode to_lower text_eq decode_rtu decoded_from_payload le_u16
    crc16
decoded-read_two = refl

decode_frame-encode_frame_example :
    (frame : List ℕ) × (encode_frame ascii_upper 17 read_two ≡ ok frame)
    × (decode_frame ascii_upper frame ≡ ok (decoded (normalize_frame_mode ascii_upper) 17 read_two))
decode_frame-encode_frame_example =
    decode_frame-encode_frame ascii_upper 17 read_two ascii_upper-Supported (omega arith)
      read_two-IsWire

decode_frame_changed_example :
    decode_frame rtu (read_two_front ++ (9 ∷ read_two_back)) ≡ err rtu_crc
decode_frame_changed_example =
    decode_frame_changed read_two_front read_two_back 0 9 (decoded rtu 17 read_two) (ground arith)
      (omega arith) (omega arith) decoded-read_two

encode_frame-decode_rtu_example :
    encode_frame rtu 17 read_two ≡ ok (read_two_front ++ (0 ∷ read_two_back))
encode_frame-decode_rtu_example =
    encode_frame-decode_rtu (read_two_front ++ (0 ∷ read_two_back)) (decoded rtu 17 read_two)
      (ground arith) (omega arith) decoded-read_two

abbrev no_unit : ℕ
no_unit = 0

refused : encode_frame rtu_upper no_unit read_two ≡ err unit_id
unfolding encode_frame
refused = refl
