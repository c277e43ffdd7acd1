-- ===== src/Modbus/Checksum.antt =====
-- `CRC16` and `LRC` of modbus/protocol.go.
pub mod Laws
use mocktrue.Base.{ℕ, zero, suc, ◌+◌, ◌-◌, ◌/◌, ◌%◌, bit_and, bit_xor, List, [], ◌∷◌}
use mocktrue.Base.{not, ◌==◌, if◌then◌else◌}

-- The body of the inner loop.
unfoldable pub crc_bit : ℕ → ℕ
crc_bit crc = if not (bit_and crc 1 == 0) then bit_xor (crc / 2) 0xa001 else crc / 2

-- The inner loop, with `n` rounds to go.
unfoldable pub crc_bits : ℕ → ℕ → ℕ
crc_bits zero crc = crc
crc_bits (suc n) crc = crc_bits n (crc_bit crc)

unfoldable pub crc_byte : ℕ → ℕ → ℕ
crc_byte crc b = crc_bits 8 (bit_xor crc b)

-- The loop over the bytes, from the register `crc`.
unfoldable pub crc_from : ℕ → List ℕ → ℕ
crc_from crc [] = crc
crc_from crc (b ∷ bs) = crc_from (crc_byte crc b) bs

unfoldable pub crc16 : List ℕ → ℕ
unfolding crc_from crc_byte crc_bits crc_bit
crc16 = crc_from 0xffff

-- The sum of the bytes, in a byte.
unfoldable pub byte_sum : ℕ → List ℕ → ℕ
byte_sum sum [] = sum
byte_sum sum (b ∷ bs) = byte_sum ((sum + b) % 256) bs

-- `byte(-int8(sum))`
unfoldable pub lrc : List ℕ → ℕ
unfolding byte_sum
lrc bs = (256 - byte_sum 0 bs) % 256
