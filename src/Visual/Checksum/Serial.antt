-- ===== src/Visual/Checksum/Serial.antt =====
-- The 8-bit CRC of protocol/visual/checksum.go against the shift register that defines it.
use mocktrue.Base.{
  ℕ, zero, suc, ◌+◌, ◌*◌, ◌/◌, ◌%◌, ◌<◌, ◌^◌, ◌≡◌, ◌⊎◌, refl, ap, ap₂, sym, ◌∙◌, arith,
}
use mocktrue.Base.{List, [], ◌∷◌, ◌++◌, All, bit_xor, inl, inr, ◌==◌}
use mocktrue.Base.{if◌then◌else◌, false}
use mocktrue.Base.Hex.{IsByte}
use mocktrue.Base.Bits.{
  bit_xor-lt, bit_xor-zero, bit_xor_assoc, bit_xor_comm, bit_xor_join, bit_and_sign,
}
use mocktrue.Base.{text_eq}
use mocktrue.Visual.Checksum.{
  ChecksumSpec, checksum, crc8_kind, shift_bit, shift_bits, shift_bytes, crc_of, crc8,
}

-- The bits of a byte, the highest first.
abbrev pub bits_of : ℕ → List ℕ
bits_of b =
    (b / 128 % 2)
    ∷ (b / 64 % 2)
    ∷ (b / 32 % 2)
    ∷ (b / 16 % 2)
    ∷ (b / 8 % 2)
    ∷ (b / 4 % 2)
    ∷ (b / 2 % 2)
    ∷ (b % 2)
    ∷ []

pub message_bits : List ℕ → List ℕ
message_bits [] = []
message_bits (b ∷ bs) = bits_of b ++ message_bits bs

-- The register of 8 bits: the bit that it shifts out is compared with the bit of the message, and where
-- they differ the polynomial is taken in.
pub register_bit : ℕ → ℕ → ℕ → ℕ
register_bit poly r bit = if r / 128 == bit then r * 2 % 256 else bit_xor (r * 2 % 256) poly

pub register : ℕ → ℕ → List ℕ → ℕ
register poly r [] = r
register poly r (bit ∷ bits) = register poly (register_bit poly r bit) bits

register-append :
    (poly r : ℕ) (xs ys : List ℕ)
    → register poly r (xs ++ ys) ≡ register poly (register poly r xs) ys
unfolding register
register-append poly r [] ys = refl
register-append poly r (x ∷ xs) ys = register-append poly (register_bit poly r x) xs ys

register_bit-IsByte : (poly r bit : ℕ) → poly < 256 → register_bit poly r bit < 256
unfolding register_bit
register_bit-IsByte poly r bit h = ground (arith, bit_xor-lt 8 (r * 2 % 256) poly)

-- The two fields of a byte.
xor_top : (r b : ℕ) → r < 256 → b < 256 → bit_xor r b / 128 ≡ bit_xor (r / 128) (b / 128)
xor_top r b hr hb = omega (
  arith,
  bit_xor_join 7 (r / 128) (r % 128) (b / 128) (b % 128) (omega arith) (omega arith),
  bit_xor-lt 7 (r % 128) (b % 128) (omega arith) (omega arith),
  ap₂ bit_xor (split r) (split b),
)
  where
    split : (x : ℕ) → x / 128 * 2 ^ 7 + x % 128 ≡ x
    split x = omega arith

xor_low :
    (r b : ℕ) → r < 256 → b < 256 → bit_xor r b * 2 % 256 ≡ bit_xor (r * 2 % 256) (b * 2 % 256)
xor_low r b hr hb = omega (
  arith,
  bit_xor_join 7 (r / 128) (r % 128) (b / 128) (b % 128) (omega arith) (omega arith),
  bit_xor-lt 7 (r % 128) (b % 128) (omega arith) (omega arith),
  ap₂ bit_xor (split r) (split b),
  bit_xor_join 1 (r % 128) 0 (b % 128) 0 (omega arith) (omega arith),
  ap₂ bit_xor (doubled r) (doubled b),
)
  where
    split : (x : ℕ) → x / 128 * 2 ^ 7 + x % 128 ≡ x
    split x = omega arith

    doubled : (x : ℕ) → x % 128 * 2 ^ 1 + 0 ≡ x * 2 % 256
    doubled x = omega arith

xor_tops :
    (x y : ℕ)
    → x < 2
    → y < 2
    → ((bit_xor x y ≡ 0) × (x ≡ y)) ⊎ ((bit_xor x y ≡ 1) × ((x == y) ≡ false))
xor_tops zero zero hx hy = inl (refl, refl)
xor_tops zero (suc zero) hx hy = inr (refl, refl)
xor_tops (suc zero) zero hx hy = inr (refl, refl)
xor_tops (suc zero) (suc zero) hx hy = inl (refl, refl)
xor_tops (suc (suc x)) y hx hy = absurd (omega arith)
xor_tops zero (suc (suc y)) hx hy = absurd (omega arith)
xor_tops (suc zero) (suc (suc y)) hx hy = absurd (omega arith)

-- One round on a register that a byte was put into, and one bit of the byte put into the register.
shift_bit-register :
    (poly r b : ℕ)
    → poly < 256
    → r < 256
    → b < 256
    → shift_bit 0x100 0x80 poly (bit_xor r b)
      ≡ bit_xor (register_bit poly r (b / 128)) (b * 2 % 256)
unfolding shift_bit register_bit
shift_bit-register poly r b hp hr hb =
    let x = bit_xor-lt 8 r b hr hb in
    let top = bit_and_sign (bit_xor r b) x in
    elim (xor_tops (r / 128) (b / 128) (omega arith) (omega arith)) [
      | inl (z, e) ↦ ground (arith, top, xor_top r b hr hb, xor_low r b hr hb)
      | inr (o, n) ↦ ground (
        arith,
        top,
        xor_top r b hr hb,
        xor_low r b hr hb,
        bit_xor_assoc 8 (r * 2 % 256) (b * 2 % 256) poly,
        bit_xor_assoc 8 (r * 2 % 256) poly (b * 2 % 256),
        bit_xor_comm 8 poly (b * 2 % 256),
      )
    ]

-- What is left of a byte, and its bits, when `n` of them have been shifted out.
left_of : ℕ → ℕ → ℕ
left_of zero b = b
left_of (suc n) b = left_of n (b * 2 % 256)

shifted_out : ℕ → ℕ → List ℕ
shifted_out zero b = []
shifted_out (suc n) b = (b / 128) ∷ shifted_out n (b * 2 % 256)

shift_bits-register :
    (n poly r b : ℕ)
    → poly < 256
    → r < 256
    → b < 256
    → shift_bits 0x100 0x80 n poly (bit_xor r b)
      ≡ bit_xor (register poly r (shifted_out n b)) (left_of n b)
unfolding shift_bits register shifted_out left_of
shift_bits-register zero poly r b hp hr hb = refl
shift_bits-register (suc n) poly r b hp hr hb =
    ap (shift_bits 0x100 0x80 n poly) (shift_bit-register poly r b hp hr hb)
    ∙ shift_bits-register n poly (register_bit poly r (b / 128)) (b * 2 % 256) hp
        (register_bit-IsByte poly r (b / 128) hp) (omega arith)

all_out : (b : ℕ) → b < 256 → shifted_out 8 b ≡ bits_of b
unfolding shifted_out
all_out b h = ap₂ ◌∷◌ (omega arith) (
    ap₂ ◌∷◌ (omega arith) (
      ap₂ ◌∷◌ (omega arith) (
        ap₂ ◌∷◌ (omega arith) (
          ap₂ ◌∷◌ (omega arith)
            (ap₂ ◌∷◌ (omega arith) (ap₂ ◌∷◌ (omega arith) (ap₂ ◌∷◌ (omega arith) refl)))))))

none_left : (b : ℕ) → b < 256 → left_of 8 b ≡ 0
unfolding left_of
none_left b h = omega arith

byte-register :
    (poly r b : ℕ)
    → poly < 256
    → r < 256
    → b < 256
    → shift_bits 0x100 0x80 8 poly (bit_xor r b) ≡ register poly r (bits_of b)
byte-register poly r b hp hr hb =
    shift_bits-register 8 poly r b hp hr hb
    ∙ ap₂ bit_xor (ap (register poly r) (all_out b hb)) (none_left b hb)
    ∙ bit_xor-zero _

register-IsByte : (poly r : ℕ) (bits : List ℕ) → poly < 256 → r < 256 → register poly r bits < 256
unfolding register
register-IsByte poly r [] hp hr = hr
register-IsByte poly r (x ∷ xs) hp hr =
    register-IsByte poly (register_bit poly r x) xs hp (register_bit-IsByte poly r x hp)

shift_bytes-register :
    (bytes : List ℕ) (poly r : ℕ)
    → All IsByte bytes
    → poly < 256
    → r < 256
    → shift_bytes 0x100 0x80 bytes poly r ≡ register poly r (message_bits bytes)
unfolding shift_bytes message_bits register
shift_bytes-register [] poly r h hp hr = refl
shift_bytes-register (b ∷ bs) poly r (hb, h) hp hr =
    let here = byte-register poly r b hp hr hb in
    ap (shift_bytes 0x100 0x80 bs poly) here
    ∙ shift_bytes-register bs poly (register poly r (bits_of b)) h hp
        (register-IsByte poly r (bits_of b) hp hr)
    ∙ sym (register-append poly r (bits_of b) (message_bits bs))

crc8-register :
    (bytes : List ℕ) (poly init xor_out : ℕ)
    → All IsByte bytes
    → poly < 256
    → init < 256
    → crc8 bytes poly init xor_out ≡ bit_xor (register poly init (message_bits bytes)) xor_out
unfolding crc_of
crc8-register bytes poly init xor_out h hp hi =
    ap (λ t. bit_xor t xor_out) (shift_bytes-register bytes poly init h hp hi)

-- The checksum of kind "crc8" of bytes is what a shift register holds that starts with the start value
-- and takes in the bits of the message one by one, the highest of each byte first, with the
-- polynomial, exclusive-or'ed with the value given for it; each of the three is cut down to 8 bits.
pub checksum-crc8 :
    (bytes : List ℕ) (spec : ChecksumSpec)
    → All IsByte bytes
    → spec.kind ≡ crc8_kind
    → checksum bytes spec
      ≡ bit_xor
          (register (spec.poly % 256) (spec.init % 256) (message_bits bytes))
          (spec.xor_out % 256)
unfolding checksum text_eq
checksum-crc8 bytes spec h e = rw e (
    crc8-register bytes (spec.poly % 256) (spec.init % 256) (spec.xor_out % 256) h (omega arith)
      (omega arith))
