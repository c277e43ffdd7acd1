-- ===== src/GraphFilter/Parser.antt =====
-- `serialGraphFilterParser`: recursive descent that evaluates while it parses. The position is the
-- list of the tokens that are left; past the end `peek` sees the end.
mod Leaves
pub mod Fuel
use mocktrue.Base.{ℕ, zero, suc, ◌+◌, ◌*◌, ◌-◌, ◌^◌, List, [], ◌∷◌, Bool, false, none, some}
use mocktrue.Base.{
  ◌&&◌, ◌||◌, not, ltb, if◌then◌else◌, length, Text, codes, text_eq, Result, ok, err,
}
use mocktrue.GraphFilter.Candidate.{Candidate, Options, numeric_field, string_field, equal_fold}
use mocktrue.GraphFilter.Candidate.{is_numeric_operator, compare_number, compare_string}
use mocktrue.GraphFilter.Token.{Error, Token, eof, lparen, rparen, ident, number, str, operator}
use mocktrue.GraphFilter.Token.{unexpected_token, expected_field, expected_closing}
use mocktrue.GraphFilter.Token.{expected_numeric_comparison, expected_numeric_literal}
use mocktrue.GraphFilter.Token.{invalid_numeric_literal, unknown_field, expected_string_comparison}
use mocktrue.GraphFilter.Token.{expected_string, out_of_fuel}

abbrev pub Parser : Type 0 → Type 0
Parser A = List Token → Result Error (A × List Token)

abbrev pub bind :
    {A B : Type 0} → Result Error (A × List Token) → (A → Parser B) → Result Error (B × List Token)
bind (ok (a, rest)) f = f a rest
bind (err e) f = err e

abbrev pub peek : List Token → Token
peek [] = eof
peek (t ∷ ts) = t

abbrev pub advance : List Token → List Token
advance [] = []
advance (t ∷ ts) = ts

abbrev pub is_keyword : Text → Token → Bool
is_keyword word (ident name) = equal_fold name word
is_keyword word _ = false

-- `strconv.Atoi` of digits; a number of 64 bits is refused.
unfoldable pub digits_value : ℕ → Text → ℕ
digits_value n [] = n
digits_value n (c ∷ cs) = digits_value (n * 10 + (c - b'0')) cs

unfoldable pub atoi : Text → Result Error ℕ
unfolding digits_value
atoi digits =
    let n = digits_value 0 digits in if ltb n (2 ^ 63) then ok n else err invalid_numeric_literal

unfoldable pub expect_string : List Token → Result Error (Text × List Token)
expect_string (str value ∷ rest) = ok (value, rest)
expect_string _ = err expected_string

module _ (c : Candidate) (o : Options) where
  -- Behind a numeric field with the value `left`.
  unfoldable pub numeric_comparison : ℕ → Parser Bool
  numeric_comparison left (operator op ∷ number digits ∷ rest) =
      if not (is_numeric_operator op)
      then err expected_numeric_comparison
      else elim (atoi digits) [ ok right ↦ ok (compare_number left op right, rest) | err e ↦ err e ]
  numeric_comparison left (operator op ∷ _) =
      if not (is_numeric_operator op)
      then err expected_numeric_comparison
      else err expected_numeric_literal
  numeric_comparison left _ = err expected_numeric_comparison

  -- Behind a text field with the value `left`.
  unfoldable pub string_comparison : Text → Text → Parser Bool
  unfolding expect_string
  string_comparison field left (ident word ∷ rest) =
      let contained =
        bind (expect_string rest)
          λ right ts. ok (compare_string field left (codes "contains") right o, ts) in
      if equal_fold word (codes "contains") then contained else err expected_string_comparison
  string_comparison field left (operator op ∷ rest) =
      let compared =
        bind (expect_string rest) λ right ts. ok (compare_string field left op right o, ts) in
      if text_eq op (codes "==") || text_eq op (codes "!=")
      then compared
      else err expected_string_comparison
  string_comparison field left _ = err expected_string_comparison

  unfoldable pub parse_comparison : Parser Bool
  parse_comparison (ident field ∷ rest) = elim (numeric_field c field) [
    | some left ↦ numeric_comparison left rest
    | none ↦ elim (string_field c field) [
      | some left ↦ string_comparison field left rest
      | none ↦ err unknown_field
    ]
  ]
  parse_comparison _ = err expected_field

  unfoldable pub closing : Bool → Parser Bool
  closing matched (rparen ∷ rest) = ok (matched, rest)
  closing matched _ = err expected_closing

  -- Each call costs a unit of fuel; what a `let` binds waits.
  unfoldable mutual
    pub parse_or : ℕ → Parser Bool
    parse_or zero ts = err out_of_fuel
    parse_or (suc f) ts = bind (parse_and f ts) λ left rest. or_loop f left rest

    pub or_loop : ℕ → Bool → Parser Bool
    or_loop zero left ts = err out_of_fuel
    or_loop (suc f) left ts =
        let more = bind (parse_and f (advance ts)) λ right rest. or_loop f (left || right) rest in
        if is_keyword (codes "or") (peek ts) then more else ok (left, ts)

    pub parse_and : ℕ → Parser Bool
    parse_and zero ts = err out_of_fuel
    parse_and (suc f) ts = bind (parse_unary f ts) λ left rest. and_loop f left rest

    pub and_loop : ℕ → Bool → Parser Bool
    and_loop zero left ts = err out_of_fuel
    and_loop (suc f) left ts =
        let more =
          bind (parse_unary f (advance ts)) λ right rest. and_loop f (left && right) rest in
        if is_keyword (codes "and") (peek ts) then more else ok (left, ts)

    pub parse_unary : ℕ → Parser Bool
    parse_unary zero ts = err out_of_fuel
    parse_unary (suc f) ts =
        let negated = bind (parse_unary f (advance ts)) λ matched rest. ok (not matched, rest) in
        let other = parse_primary f ts in
        if is_keyword (codes "not") (peek ts) then negated else other

    pub parse_primary : ℕ → Parser Bool
    parse_primary zero ts = err out_of_fuel
    parse_primary (suc f) (lparen ∷ ts) = bind (parse_or f ts) λ matched rest. closing matched rest
    parse_primary (suc f) ts = parse_comparison ts

  -- The end of the input, where the parser has to stand.
  unfoldable pub finish : Result Error (Bool × List Token) → Result Error Bool
  finish (ok (matched, [])) = ok matched
  finish (ok (matched, eof ∷ _)) = ok matched
  finish (ok (matched, _ ∷ _)) = err unexpected_token
  finish (err e) = err e

  unfoldable pub parse : List Token → Result Error Bool
  parse ts = finish (parse_or (5 * length ts + 5) ts)
