-- ===== src/GraphFilter/Language/Decimal.antt =====
-- The digits that `strconv.Itoa` writes and `strconv.Atoi` reads.
use mocktrue.Base.{ℕ, zero, suc, ◌+◌, ◌*◌, ◌-◌, ◌/◌, ◌%◌, ◌^◌, ◌<◌, ◌≡◌, refl, ap, ◌∙◌, [], ◌∷◌}
use mocktrue.Base.{Bool-cases, ◌==◌, inl, inr, Text, ok, arith, lt→ltb, true}
use mocktrue.GraphFilter.Match.{decimal, itoa}
use mocktrue.GraphFilter.Parser.{digits_value, atoi}

digit_put : (n : ℕ) → n / 10 * 10 + ((b'0' + n % 10) - b'0') ≡ n
digit_put n = omega arith

single :
    (n : ℕ) (behind : Text)
    → ((n / 10) == 0) ≡ true
    → digits_value (0 * 10 + ((b'0' + n % 10) - b'0')) behind ≡ digits_value n behind
single n behind e = ap (λ k. digits_value k behind) (ground arith)

digits_value-decimal :
    (f n : ℕ) (behind : Text)
    → n < 10 ^ suc f
    → digits_value 0 (decimal (suc f) n behind) ≡ digits_value n behind
unfolding decimal digits_value
digits_value-decimal zero n behind h =
    let e : ((n / 10) == 0) ≡ true = ground arith in rw e (single n behind e)
digits_value-decimal (suc f) n behind h =
    let smaller = digits_value-decimal f (n / 10) ((b'0' + n % 10) ∷ behind) (omega arith) in
    elim (Bool-cases ((n / 10) == 0)) [
      | inl e ↦ rw e (single n behind e)
      | inr e ↦ rw e (smaller ∙ ap (λ k. digits_value k behind) (digit_put n))
    ]

pub atoi-itoa : (n : ℕ) → n < 2 ^ 63 → atoi (itoa n) ≡ ok n
unfolding atoi itoa digits_value
atoi-itoa n h =
    let e = digits_value-decimal 19 n [] (omega arith) in
    rw (lt→ltb n (2 ^ 63) h, e, lt→ltb n (2 ^ 63) h) refl
