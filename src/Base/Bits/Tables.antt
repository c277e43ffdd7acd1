-- ===== src/Base/Bits/Tables.antt =====
-- Facts about one byte, checked at each of its values.
use Prim.Native.Nat.{ℕ, zero, suc, ◌+◌, ◌*◌, ◌/◌, ◌%◌, ◌^◌, ◌<◌, bit_and, bit_or, bit_and-bitwise}
use mathlib.Core.Path.{◌≡◌, refl}
use mathlib.Core.Bool.{Bool, true, false, not, ◌&&◌}
use native.Mathlib.Omega.{arith}
use mocktrue.Base.Tests.{◌==◌, ==_iff, if◌then◌else◌}

-- Whether `p` holds at every number below `n`.
unfoldable pub all_below : ℕ → (ℕ → Bool) → Bool
all_below zero p = true
all_below (suc n) p = p n && all_below n p

pub all_below_sound :
    (count : ℕ) (test : ℕ → Bool) (k : ℕ) → all_below count test ≡ true → k < count → test k ≡ true
unfolding all_below
all_below_sound zero test k e h = absurd (omega arith)
all_below_sound (suc count) test k e h = ground (arith, all_below_sound count test k)

-- `b & (1 << j) != 0`
abbrev pub has_bit : ℕ → ℕ → Bool
has_bit b j = not (bit_and b (2 ^ j) == 0)

pub has_bit-zero : (j : ℕ) → has_bit 0 j ≡ false
has_bit-zero j = rw (bit_and-bitwise 0 (2 ^ j))

-- The sign bit of a byte.
pub bit_and_sign : (b : ℕ) → b < 256 → bit_and b 0x80 ≡ b / 128 * 128
bit_and_sign b h =
    (==_iff _ _).0 (all_below_sound 256 (λ x. bit_and x 0x80 == x / 128 * 128) b table h)
  where
    table : all_below 256 (λ x. bit_and x 0x80 == x / 128 * 128) ≡ true
    table = unfold all_below in refl

pub bit_or_sign : (b : ℕ) → b < 128 → bit_or b 0x80 ≡ b + 128
bit_or_sign b h = (==_iff _ _).0 (all_below_sound 128 (λ x. bit_or x 0x80 == x + 128) b table h)
  where
    table : all_below 128 (λ x. bit_or x 0x80 == x + 128) ≡ true
    table = unfold all_below in refl

Bool_eq : Bool → Bool → Bool
Bool_eq true b = b
Bool_eq false b = not b

Bool_eq→eq : (a b : Bool) → Bool_eq a b ≡ true → a ≡ b
unfolding Bool_eq
Bool_eq→eq a b h = ground arith

-- Setting bit `k` of a byte shows at bit `k` and nowhere else.
set_bit_test : ℕ → Bool
set_bit_test n =
    let b = n / 64 in
    let k = n / 8 % 8 in
    let j = n % 8 in Bool_eq (has_bit (bit_or b (2 ^ k)) j) (if k == j then true else has_bit b j)

set_bit_table : all_below 16384 set_bit_test ≡ true
unfolding all_below set_bit_test Bool_eq
set_bit_table = refl

pub has_bit-bit_or :
    (b k j : ℕ)
    → b < 256
    → k < 8
    → j < 8
    → has_bit (bit_or b (2 ^ k)) j ≡ (if k == j then true else has_bit b j)
has_bit-bit_or b k j hb hk hj = Bool_eq→eq _ _ (unfold set_bit_test in rw (eb, ek, ej) at row)
  where
    n : ℕ
    n = b * 64 + k * 8 + j

    row : set_bit_test n ≡ true
    row = all_below_sound 16384 set_bit_test n set_bit_table (omega arith)

    eb : n / 64 ≡ b
    eb = omega arith

    ek : n / 8 % 8 ≡ k
    ek = omega arith

    ej : n % 8 ≡ j
    ej = omega arith
