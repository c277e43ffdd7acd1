-- ===== src/Visual/Checksum/Laws.antt =====
-- The width of the checksums and the sum.
use mocktrue.Base.{ℕ, zero, suc, ◌+◌, ◌*◌, ◌/◌, ◌%◌, ◌^◌, ◌<◌, ◌≤◌, ◌≡◌, refl, ◌∙◌, arith}
use mocktrue.Base.{List, [], ◌∷◌, All, bit_and, bit_xor, Bool-cases, inl, inr}
use mocktrue.Base.{◌==◌, not, if◌then◌else◌, text_eq, text_eq→eq}
use native.Mathlib.Nat.{mod-lt}
use mocktrue.Base.Hex.{IsByte}
use mocktrue.Base.Bits.{bit_xor-lt, bit_and_step, bit_and-one}
use mocktrue.Visual.Checksum.{ChecksumSpec, shift_bit, shift_bits, shift_bytes, crc_of}
use mocktrue.Visual.Checksum.{sum32, checksum, sum8_kind, crc8_kind, crc16_kind, crc32_kind}

module _ (k size top : ℕ) (power : size ≡ 2 ^ k) (wide : 256 ≤ size) where
  low_part : (a : ℕ) → a % size < size
  low_part a = mod-lt a (omega arith)

  shift_bit-lt : (poly crc : ℕ) → poly < size → shift_bit size top poly crc < size
  unfolding shift_bit
  shift_bit-lt poly crc hp = elim (Bool-cases (not (bit_and crc top == 0))) [
    | inl e ↦ rw e (
        omega (
          arith,
          power,
          bit_xor-lt k (crc * 2 % size) poly (omega (arith, power, low_part (crc * 2)))
              (omega (arith, power)),
        ))
    | inr n ↦ rw n (low_part (crc * 2))
  ]

  shift_bits-lt :
      (n poly crc : ℕ) → poly < size → crc < size → shift_bits size top n poly crc < size
  unfolding shift_bits
  shift_bits-lt zero poly crc hp hc = hc
  shift_bits-lt (suc n) poly crc hp hc =
      shift_bits-lt n poly (shift_bit size top poly crc) hp (shift_bit-lt poly crc hp)

  xor_inside : (a b : ℕ) → a < size → b < size → bit_xor a b < size
  xor_inside a b ha hb =
      omega (arith, power, bit_xor-lt k a b (omega (arith, power)) (omega (arith, power)))

  pub shift_bytes-lt :
      (bytes : List ℕ) (poly crc : ℕ)
      → All IsByte bytes
      → poly < size
      → crc < size
      → shift_bytes size top bytes poly crc < size
  unfolding shift_bytes
  shift_bytes-lt [] poly crc h hp hc = hc
  shift_bytes-lt (b ∷ bs) poly crc h hp hc =
      shift_bytes-lt bs poly _ h.1 hp
        (shift_bits-lt 8 poly (bit_xor crc b) hp (xor_inside crc b hc (omega (arith, h.0))))

  pub crc_of-lt :
      (bytes : List ℕ) (poly init xor_out : ℕ)
      → All IsByte bytes
      → poly < size
      → init < size
      → xor_out < size
      → crc_of size top bytes poly init xor_out < size
  unfolding crc_of
  crc_of-lt bytes poly init xor_out h hp hi hx =
      xor_inside _ xor_out (shift_bytes-lt bytes poly init h hp hi) hx

bit_and_3 : (a : ℕ) → bit_and a 3 ≡ a % 4
bit_and_3 a = omega (arith, bit_and_step a 3, bit_and-one (a / 2))

bit_and_7 : (a : ℕ) → bit_and a 7 ≡ a % 8
bit_and_7 a = omega (arith, bit_and_step a 7, bit_and_3 (a / 2))

bit_and_15 : (a : ℕ) → bit_and a 15 ≡ a % 16
bit_and_15 a = omega (arith, bit_and_step a 15, bit_and_7 (a / 2))

bit_and_31 : (a : ℕ) → bit_and a 31 ≡ a % 32
bit_and_31 a = omega (arith, bit_and_step a 31, bit_and_15 (a / 2))

bit_and_63 : (a : ℕ) → bit_and a 63 ≡ a % 64
bit_and_63 a = omega (arith, bit_and_step a 63, bit_and_31 (a / 2))

bit_and_127 : (a : ℕ) → bit_and a 127 ≡ a % 128
bit_and_127 a = omega (arith, bit_and_step a 127, bit_and_63 (a / 2))

bit_and_255 : (a : ℕ) → bit_and a 255 ≡ a % 256
bit_and_255 a = omega (arith, bit_and_step a 255, bit_and_127 (a / 2))

-- The sum of the bytes as a number without bounds.
abbrev pub total_of : List ℕ → ℕ
total_of [] = 0
total_of (b ∷ bs) = b + total_of bs

sum32_value : (bytes : List ℕ) (sum : ℕ) → sum32 bytes sum % 256 ≡ (sum + total_of bytes) % 256
unfolding sum32
sum32_value [] sum = omega arith
sum32_value (b ∷ bs) sum = omega (arith, sum32_value bs ((sum + b) % 2 ^ 32))

-- The checksum of kind "sum8" is the sum of all bytes modulo 256, however long the data is, although
-- it is added up in a uint32.
pub checksum-sum8 :
    (bytes : List ℕ) (spec : ChecksumSpec)
    → spec.kind ≡ sum8_kind
    → checksum bytes spec ≡ total_of bytes % 256
unfolding checksum text_eq
checksum-sum8 bytes spec e = rw e (bit_and_255 (sum32 bytes 0) ∙ sum32_value bytes 0 ∙ omega arith)

-- Each checksum fits the width that its name says, for data bytes and a specification whose fields
-- are uint32.
pub checksum-lt :
    (bytes : List ℕ) (spec : ChecksumSpec)
    → All IsByte bytes
    → spec.poly < 2 ^ 32
    → spec.init < 2 ^ 32
    → spec.xor_out < 2 ^ 32
    → checksum bytes spec < (
        if text_eq spec.kind crc32_kind
        then 2 ^ 32
        else if text_eq spec.kind crc16_kind
        then 2 ^ 16
        else 2 ^ 8)
unfolding checksum text_eq
checksum-lt bytes spec h hp hi hx = elim (Bool-cases (text_eq spec.kind sum8_kind)) [
  | inl a ↦ rw (text_eq→eq spec.kind sum8_kind a) (omega (arith, bit_and_255 (sum32 bytes 0)))
  | inr a ↦ rw a (elim (Bool-cases (text_eq spec.kind crc8_kind)) [
    | inl b ↦ rw (text_eq→eq spec.kind crc8_kind b) (
        crc_of-lt 8 0x100 0x80 refl (omega arith) bytes _ _ _ h (omega arith) (omega arith)
          (omega arith))
    | inr b ↦ rw b (elim (Bool-cases (text_eq spec.kind crc16_kind)) [
      | inl c ↦ rw (text_eq→eq spec.kind crc16_kind c) (
          crc_of-lt 16 0x10000 0x8000 refl (omega arith) bytes _ _ _ h (omega arith) (omega arith)
            (omega arith))
      | inr c ↦ rw c (elim (Bool-cases (text_eq spec.kind crc32_kind)) [
        | inl d ↦
            rw d (crc_of-lt 32 0x100000000 0x80000000 refl (omega arith) bytes _ _ _ h hp hi hx)
        | inr d ↦ rw d (omega arith)
      ])
    ])
  ])
]
