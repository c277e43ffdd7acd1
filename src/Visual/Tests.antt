-- ===== src/Visual/Tests.antt =====
-- Checksums of "123456789".
use mocktrue.Base.{ℕ, bit_xor, All, arith, ◌≡◌, refl, List, [], ◌∷◌, Text, text_eq}
use mocktrue.Visual.Checksum.{ChecksumSpec, crc8_kind, crc16_kind, checksum}
use mocktrue.Visual.Checksum.{crc_of}
use mocktrue.Base.Hex.{IsByte}
use mocktrue.Visual.Checksum.Serial.{register, message_bits, checksum-crc8}

abbrev digits : List ℕ
digits = 0x31 ∷ 0x32 ∷ 0x33 ∷ 0x34 ∷ 0x35 ∷ 0x36 ∷ 0x37 ∷ 0x38 ∷ 0x39 ∷ []

abbrev spec : Text → ℕ → ℕ → ChecksumSpec
spec kind poly init = record {
  kind = kind;
  offset = 0;
  width = 1;
  poly = poly;
  init = init;
  xor_out = 0;
}

digits_bytes : All IsByte digits
digits_bytes = ground arith

checksum-crc8_example :
    checksum digits (spec crc8_kind 0x107 0x55) ≡ bit_xor (register 7 0x55 (message_bits digits)) 0
checksum-crc8_example = checksum-crc8 digits (spec crc8_kind 0x107 0x55) digits_bytes refl

-- The value that is listed for CRC-8 with polynomial 7.
crc8_value : checksum digits (spec crc8_kind 7 0) ≡ 0xf4
unfolding checksum text_eq crc_of
crc8_value = refl

-- The value that is listed for CRC-16 with polynomial 0x1021 and start value 0xffff is 0x29b1.
crc16_value : checksum digits (spec crc16_kind 0x1021 0xffff) ≡ 0xb167
unfolding checksum text_eq crc_of
crc16_value = refl
