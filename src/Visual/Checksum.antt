-- ===== src/Visual/Checksum.antt =====
-- protocol/visual/checksum.go.
pub mod Laws
pub mod Serial
use mocktrue.Base.{ℕ, zero, suc, ◌+◌, ◌*◌, ◌%◌, ◌^◌, List, [], ◌∷◌, bit_and, bit_xor}
use mocktrue.Base.{◌==◌, not, if◌then◌else◌, Text, codes, text_eq}

pub record ChecksumSpec : Type 0 where
  pub kind : Text
  pub offset : ℕ
  pub width : ℕ
  pub poly : ℕ
  pub init : ℕ
  pub xor_out : ℕ

-- `crc8`, `crc16` and `crc32` are one loop on registers of 8, 16 and 32 bits: `top` is the register's
-- highest bit and `size` the number of its values.
module _ (size top : ℕ) where
  pub shift_bit : ℕ → ℕ → ℕ
  shift_bit poly crc =
      if not (bit_and crc top == 0) then bit_xor (crc * 2 % size) poly else crc * 2 % size

  -- The inner loop, with `n` rounds to go.
  pub shift_bits : ℕ → ℕ → ℕ → ℕ
  shift_bits zero poly crc = crc
  shift_bits (suc n) poly crc = shift_bits n poly (shift_bit poly crc)

  pub shift_bytes : List ℕ → ℕ → ℕ → ℕ
  shift_bytes [] poly crc = crc
  shift_bytes (b ∷ bs) poly crc = shift_bytes bs poly (shift_bits 8 poly (bit_xor crc b))

  unfoldable pub crc_of : List ℕ → ℕ → ℕ → ℕ → ℕ
  unfolding shift_bytes shift_bits shift_bit
  crc_of bytes poly init xor_out = bit_xor (shift_bytes bytes poly init) xor_out

abbrev pub crc8 : List ℕ → ℕ → ℕ → ℕ → ℕ
crc8 = crc_of 0x100 0x80

abbrev pub crc16 : List ℕ → ℕ → ℕ → ℕ → ℕ
crc16 = crc_of 0x10000 0x8000

abbrev pub crc32 : List ℕ → ℕ → ℕ → ℕ → ℕ
crc32 = crc_of 0x100000000 0x80000000

-- The sum of the bytes in a uint32.
pub sum32 : List ℕ → ℕ → ℕ
sum32 [] sum = sum
sum32 (b ∷ bs) sum = sum32 bs ((sum + b) % 2 ^ 32)

abbrev pub sum8_kind : Text
sum8_kind = codes "sum8"

abbrev pub crc8_kind : Text
crc8_kind = codes "crc8"

abbrev pub crc16_kind : Text
crc16_kind = codes "crc16"

abbrev pub crc32_kind : Text
crc32_kind = codes "crc32"

-- The fields of the specification are uint32, and cut down to the register's width.
unfoldable pub checksum : List ℕ → ChecksumSpec → ℕ
checksum bytes spec =
    if text_eq kind sum8_kind
    then bit_and (sum32 bytes 0) 0xff
    else if text_eq kind crc8_kind
    then crc8 bytes (poly % 256) (init % 256) (xor_out % 256)
    else if text_eq kind crc16_kind
    then crc16 bytes (poly % 65536) (init % 65536) (xor_out % 65536)
    else if text_eq kind crc32_kind
    then crc32 bytes poly init xor_out
    else 0
  where
    open spec use {kind, poly, init, xor_out}
