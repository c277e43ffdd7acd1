-- ===== src/Base/Bits/Xor.antt =====
-- `^` is associative, and works on the fields of a word apart.
use Prim.Native.Nat.{differ}
use Prim.Native.Nat.{ℕ, zero, suc, ◌+◌, ◌*◌, ◌/◌, ◌%◌, ◌^◌, ◌<◌, bit_xor}
use mathlib.Core.Path.{◌≡◌, refl, ap, ap₂, ◌∙◌}
use native.Mathlib.Nat.{pow-suc}
use native.Mathlib.Omega.{arith}
use mocktrue.Base.Bits.Digits.{
  bit_xor_step, bit_xor_halves, bit_xor-zero, upper_half, upper_even, lower_half,
}

differ_assoc : (a b c : ℕ) → a < 2 → b < 2 → c < 2 → differ (differ a b) c ≡ differ a (differ b c)
differ_assoc zero b c ha hb hc = refl
differ_assoc (suc zero) zero c ha hb hc = refl
differ_assoc (suc zero) (suc zero) zero ha hb hc = refl
differ_assoc (suc zero) (suc zero) (suc zero) ha hb hc = refl
differ_assoc (suc (suc a)) b c ha hb hc = absurd (omega arith)
differ_assoc (suc zero) (suc (suc b)) c ha hb hc = absurd (omega arith)
differ_assoc (suc zero) (suc zero) (suc (suc c)) ha hb hc = absurd (omega arith)

pub bit_xor_assoc :
    (k a b c : ℕ)
    → a < 2 ^ k
    → b < 2 ^ k
    → c < 2 ^ k
    → bit_xor (bit_xor a b) c ≡ bit_xor a (bit_xor b c)
bit_xor_assoc zero zero zero zero p q r = refl
bit_xor_assoc zero zero zero (suc c) p q r = absurd (omega arith)
bit_xor_assoc zero zero (suc b) c p q r = absurd (omega arith)
bit_xor_assoc zero (suc a) b c p q r = absurd (omega arith)
bit_xor_assoc (suc k) a b c p q r = ground (
  arith,
  bit_xor_step (bit_xor a b) c,
  bit_xor_step a (bit_xor b c),
  bit_xor_halves a b,
  bit_xor_halves b c,
  differ_assoc (a % 2) (b % 2) (c % 2) (omega arith) (omega arith) (omega arith),
  bit_xor_assoc k (a / 2) (b / 2) (c / 2) (omega (arith, pow-suc 2 k)) (omega (arith, pow-suc 2 k))
      (omega (arith, pow-suc 2 k)),
)

pub bit_xor_join :
    (k q r p s : ℕ)
    → r < 2 ^ k
    → s < 2 ^ k
    → bit_xor (q * 2 ^ k + r) (p * 2 ^ k + s) ≡ bit_xor q p * 2 ^ k + bit_xor r s
bit_xor_join zero q zero p zero hr hs =
    let left : q * 1 + 0 ≡ q = omega arith in
    let right : p * 1 + 0 ≡ p = omega arith in
    ap₂ bit_xor left right ∙ omega (arith, bit_xor-zero 0)
bit_xor_join zero q (suc r) p s hr hs = absurd (omega arith)
bit_xor_join zero q zero p (suc s) hr hs = absurd (omega arith)
bit_xor_join (suc k) q r p s hr hs =
    let left : (q * 2 ^ suc k + r) / 2 ≡ q * 2 ^ k + r / 2 =
      omega (arith, upper_half k q r hr, upper_even k q r hr) in
    let right : (p * 2 ^ suc k + s) / 2 ≡ p * 2 ^ k + s / 2 =
      omega (arith, upper_half k p s hs, upper_even k p s hs) in
    let left' : (q * 2 ^ suc k + r) % 2 ≡ r % 2 = omega (arith, upper_even k q r hr) in
    let right' : (p * 2 ^ suc k + s) % 2 ≡ s % 2 = omega (arith, upper_even k p s hs) in
    omega (
      arith,
      bit_xor_step (q * 2 ^ suc k + r) (p * 2 ^ suc k + s),
      ap₂ bit_xor left right,
      ap₂ differ left' right',
      bit_xor_step r s,
      bit_xor_join k q (r / 2) p (s / 2) (lower_half k q r hr) (lower_half k p s hs),
      ap (λ t. bit_xor q p * t) (pow-suc 2 k),
    )
