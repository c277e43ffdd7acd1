-- ===== src/Modbus/Checksum/Laws.antt =====
-- What the checksums of modbus/protocol.go promise: their range, their residue, and the errors
-- that they detect.
use mocktrue.Base.{ℕ, zero, suc, ◌+◌, ◌*◌, ◌/◌, ◌%◌, ◌^◌, ◌<◌, ◌≤◌, ◌≡◌, refl, sym, ◌∙◌, ap, arith}
use mocktrue.Base.{List, [], ◌∷◌, ◌++◌, bit_xor, All}
use mocktrue.Base.Bits.{bit_xor-lt, bit_xor_fields, bit_xor_cancel, bit_xor_comm, bit_and-one}
use native.Mathlib.Decide.{dec_lt}
use mocktrue.Base.Hex.{IsByte}
use mocktrue.Modbus.Words.{IsU16, lo, hi}
use mocktrue.Modbus.Checksum.{crc_bit, crc_bits, crc_byte, crc_from, crc16, byte_sum, lrc}

crc_bit-IsU16 : (crc : ℕ) → IsU16 crc → IsU16 (crc_bit crc)
unfolding crc_bit
crc_bit-IsU16 crc h = ground (arith, bit_xor-lt 16 (crc / 2) 0xa001)

crc_bits-IsU16 : (n crc : ℕ) → IsU16 crc → IsU16 (crc_bits n crc)
unfolding crc_bits
crc_bits-IsU16 zero crc h = h
crc_bits-IsU16 (suc n) crc h = crc_bits-IsU16 n (crc_bit crc) (crc_bit-IsU16 crc h)

crc_byte-IsU16 : (crc b : ℕ) → IsU16 crc → IsByte b → IsU16 (crc_byte crc b)
unfolding crc_byte
crc_byte-IsU16 crc b h hb = crc_bits-IsU16 8 (bit_xor crc b) (bit_xor-lt 16 crc b h (omega arith))

crc_from-IsU16 : (crc : ℕ) (bs : List ℕ) → IsU16 crc → All IsByte bs → IsU16 (crc_from crc bs)
unfolding crc_from
crc_from-IsU16 crc [] h hb = h
crc_from-IsU16 crc (b ∷ bs) h hb =
    crc_from-IsU16 (crc_byte crc b) bs (crc_byte-IsU16 crc b h hb.0) hb.1

pub crc16-IsU16 : (bs : List ℕ) → All IsByte bs → IsU16 (crc16 bs)
unfolding crc16
crc16-IsU16 bs h = crc_from-IsU16 0xffff bs (omega arith) h

crc_bit_even : (c : ℕ) → crc_bit (c * 2) ≡ c
unfolding crc_bit
crc_bit_even c = ground (arith, bit_and-one (c * 2))

crc_bits_high : (c : ℕ) → crc_bits 8 (c * 256) ≡ c
unfolding crc_bits
crc_bits_high c = ground (
  arith,
  crc_bit_even (c * 128),
  crc_bit_even (c * 64),
  crc_bit_even (c * 32),
  crc_bit_even (c * 16),
  crc_bit_even (c * 8),
  crc_bit_even (c * 4),
  crc_bit_even (c * 2),
  crc_bit_even c,
)

-- A register whose low byte is the next byte of the data shifts down by that byte.
crc_byte_low : (h l : ℕ) → IsByte l → crc_byte (h * 256 + l) l ≡ h
unfolding crc_byte
crc_byte_low h l hl = rw (bit_xor_fields 8 h l hl) (crc_bits_high h)

crc_from-append :
    (crc : ℕ) (xs ys : List ℕ) → crc_from crc (xs ++ ys) ≡ crc_from (crc_from crc xs) ys
unfolding crc_from
crc_from-append crc [] ys = refl
crc_from-append crc (x ∷ xs) ys = crc_from-append (crc_byte crc x) xs ys

crc_from_residue : (crc : ℕ) → IsU16 crc → crc_from crc (lo crc ∷ hi crc ∷ []) ≡ 0
unfolding crc_from
crc_from_residue crc h = ground (arith, crc_byte_low (hi crc) (lo crc), crc_byte_low 0 (hi crc))

-- The checksum of bytes that are followed by their own checksum, low byte first, is 0.
pub crc16_residue :
    (bs : List ℕ) → All IsByte bs → let crc = crc16 bs in crc16 (bs ++ (lo crc ∷ hi crc ∷ [])) ≡ 0
unfolding crc16
crc16_residue bs h = crc_from-append 0xffff bs _ ∙ crc_from_residue (crc16 bs) (crc16-IsU16 bs h)

-- The polynomial sets the top bit of a register that the shift has cleared.
polynomial_high : (c : ℕ) → c < 2 ^ 15 → 2 ^ 15 ≤ bit_xor c 0xa001
polynomial_high c h = elim (dec_lt (bit_xor c 0xa001) (2 ^ 15)) [
  | yes low ↦ absurd (too_low low)
  | no high ↦ omega arith
]
  where
    back : bit_xor (bit_xor c 0xa001) c ≡ 0xa001
    back =
        rw (bit_xor_comm 16 c 0xa001 (omega arith) (omega arith))
          (bit_xor_cancel 16 0xa001 c (omega arith) (omega arith))

    too_low : bit_xor c 0xa001 < 2 ^ 15 → ⊥
    too_low low = omega (arith, back, bit_xor-lt 15 (bit_xor c 0xa001) c low h)

-- The rounds lose nothing: two registers that agree after a byte agreed before it.
crc_bit-injective : (a b : ℕ) → IsU16 a → IsU16 b → crc_bit a ≡ crc_bit b → a ≡ b
unfolding crc_bit
crc_bit-injective a b ha hb e = ground (
  arith,
  bit_and-one a,
  bit_and-one b,
  bit_xor_cancel 16 (a / 2) 0xa001,
  bit_xor_cancel 16 (b / 2) 0xa001,
  polynomial_high (a / 2),
  polynomial_high (b / 2),
)

crc_bits-injective : (n a b : ℕ) → IsU16 a → IsU16 b → crc_bits n a ≡ crc_bits n b → a ≡ b
unfolding crc_bits
crc_bits-injective zero a b ha hb e = e
crc_bits-injective (suc n) a b ha hb e =
    crc_bit-injective a b ha hb
      (crc_bits-injective n (crc_bit a) (crc_bit b) (crc_bit-IsU16 a ha) (crc_bit-IsU16 b hb) e)

-- Exclusive or with one word loses nothing, from either side.
bit_xor-injective : (a b c : ℕ) → IsU16 a → IsU16 b → IsU16 c → bit_xor a c ≡ bit_xor b c → a ≡ b
bit_xor-injective a b c ha hb hc e =
    sym (bit_xor_cancel 16 a c ha hc) ∙ ap (λ t. bit_xor t c) e ∙ bit_xor_cancel 16 b c hb hc

crc_byte-injective :
    (a b x : ℕ) → IsU16 a → IsU16 b → IsByte x → crc_byte a x ≡ crc_byte b x → a ≡ b
unfolding crc_byte
crc_byte-injective a b x ha hb hx e = bit_xor-injective a b x ha hb wide (
    crc_bits-injective 8 (bit_xor a x) (bit_xor b x) (bit_xor-lt 16 a x ha wide)
      (bit_xor-lt 16 b x hb wide) e)
  where
    wide : IsU16 x
    wide = omega arith

crc_byte-injective_data :
    (crc x y : ℕ) → IsU16 crc → IsByte x → IsByte y → crc_byte crc x ≡ crc_byte crc y → x ≡ y
unfolding crc_byte
crc_byte-injective_data crc x y h hx hy e =
    bit_xor-injective x y crc wide_x wide_y h
      (rw (bit_xor_comm 16 x crc wide_x h, bit_xor_comm 16 y crc wide_y h) same)
  where
    wide_x : IsU16 x
    wide_x = omega arith

    wide_y : IsU16 y
    wide_y = omega arith

    same : bit_xor crc x ≡ bit_xor crc y
    same =
        crc_bits-injective 8 (bit_xor crc x) (bit_xor crc y) (bit_xor-lt 16 crc x h wide_x)
          (bit_xor-lt 16 crc y h wide_y) e

crc_from-injective :
    (a b : ℕ) (bs : List ℕ)
    → IsU16 a
    → IsU16 b
    → All IsByte bs
    → crc_from a bs ≡ crc_from b bs
    → a ≡ b
unfolding crc_from
crc_from-injective a b [] ha hb h e = e
crc_from-injective a b (x ∷ bs) ha hb h e = crc_byte-injective a b x ha hb h.0 (
    crc_from-injective (crc_byte a x) (crc_byte b x) bs (crc_byte-IsU16 a x ha h.0)
      (crc_byte-IsU16 b x hb h.0) h.1 e)

-- One changed byte always changes the checksum.
pub crc16_detects :
    (front back : List ℕ) (x y : ℕ)
    → All IsByte front
    → All IsByte back
    → IsByte x
    → IsByte y
    → crc16 (front ++ (x ∷ back)) ≡ crc16 (front ++ (y ∷ back))
    → x ≡ y
unfolding crc16
crc16_detects front back x y hf hb hx hy e = crc_byte-injective_data crc x y range hx hy (
    crc_from-injective (crc_byte crc x) (crc_byte crc y) back (crc_byte-IsU16 crc x range hx)
      (crc_byte-IsU16 crc y range hy) hb (unfold crc_from in (sym (run x) ∙ e ∙ run y)))
  where
    crc : ℕ
    crc = crc_from 0xffff front

    range : IsU16 crc
    range = crc_from-IsU16 0xffff front (omega arith) hf

    run : (z : ℕ) → crc_from 0xffff (front ++ (z ∷ back)) ≡ crc_from crc (z ∷ back)
    run z = crc_from-append 0xffff front (z ∷ back)

byte_sum_value : (s : ℕ) (bs : List ℕ) → s < 256 → byte_sum s bs < 256
unfolding byte_sum
byte_sum_value s [] h = h
byte_sum_value s (b ∷ bs) h = byte_sum_value ((s + b) % 256) bs (omega arith)

byte_sum-append : (s : ℕ) (xs ys : List ℕ) → byte_sum s (xs ++ ys) ≡ byte_sum (byte_sum s xs) ys
unfolding byte_sum
byte_sum-append s [] ys = refl
byte_sum-append s (x ∷ xs) ys = byte_sum-append ((s + x) % 256) xs ys

pub lrc-IsByte : (bs : List ℕ) → IsByte (lrc bs)
unfolding lrc
lrc-IsByte bs = omega arith

-- The sum of a message and its LRC, in a byte, is 0.
pub lrc_residue : (bs : List ℕ) → byte_sum 0 (bs ++ (lrc bs ∷ [])) ≡ 0
lrc_residue bs =
    byte_sum-append 0 bs _ ∙ unfold byte_sum lrc in omega (arith, byte_sum_value 0 bs (omega arith))
