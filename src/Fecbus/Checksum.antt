-- ===== src/Fecbus/Checksum.antt =====
-- `CRC16` of fecbus/protocol.go.
use mocktrue.Base.{ℕ, zero, suc, ◌/◌, ◌≡◌, refl, bit_and, bit_xor, List, [], ◌∷◌, All}
use mocktrue.Base.{not, ◌==◌, if◌then◌else◌}
use mocktrue.Base.Hex.{IsByte}
use mocktrue.Modbus.Words.{IsU16}
use mocktrue.Modbus.Checksum
use mocktrue.Modbus.Checksum.Laws.{crc16-IsU16}

crc_bits : ℕ → ℕ → ℕ
crc_bits zero crc = crc
crc_bits (suc n) crc =
    crc_bits n (if not (bit_and crc 1 == 0) then bit_xor (crc / 2) 0xa001 else crc / 2)

crc_from : ℕ → List ℕ → ℕ
crc_from crc [] = crc
crc_from crc (b ∷ bs) = crc_from (crc_bits 8 (bit_xor crc b)) bs

unfoldable pub crc16 : List ℕ → ℕ
unfolding crc_from crc_bits
crc16 = crc_from 0xffff

crc_bits_agree : (n crc : ℕ) → crc_bits n crc ≡ Checksum.crc_bits n crc
unfolding crc_bits Checksum.crc_bits Checksum.crc_bit
crc_bits_agree zero crc = refl
crc_bits_agree (suc n) crc = crc_bits_agree n _

crc_from_agree : (crc : ℕ) (bs : List ℕ) → crc_from crc bs ≡ Checksum.crc_from crc bs
unfolding crc_from Checksum.crc_from Checksum.crc_byte
crc_from_agree crc [] = refl
crc_from_agree crc (b ∷ bs) =
    rw (crc_bits_agree 8 (bit_xor crc b)) (crc_from_agree (Checksum.crc_bits 8 (bit_xor crc b)) bs)

-- The Modbus and the FECbus package compute the same checksum of any data.
pub crc16_agree : (bs : List ℕ) → crc16 bs ≡ Checksum.crc16 bs
unfolding crc16 Checksum.crc16
crc16_agree bs = crc_from_agree 0xffff bs

pub crc16_range : (bs : List ℕ) → All IsByte bs → IsU16 (crc16 bs)
crc16_range bs h = rw (crc16_agree bs) (crc16-IsU16 bs h)
