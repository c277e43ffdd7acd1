-- ===== src/GraphFilter/Language/Fields.antt =====
-- The comparisons of graph_filter.go on the fields' names.
use mocktrue.Base.{ℕ, zero, suc, ◌<◌, ◌^◌, ◌≡◌, refl, ap, List, [], ◌∷◌, ◌++◌}
use mocktrue.Base.{Bool, true, false, not, codes, Text, Result, ok, arith}
use mocktrue.Base.{text_eq, to_lower, some, none, if◌then◌else◌}
use mocktrue.GraphFilter.Candidate.{
  Candidate, Options, numeric_field, string_field, equal_fold, size,
}
use mocktrue.GraphFilter.Candidate.{is_numeric_operator, compare_number, compare_string}
use mocktrue.GraphFilter.Token.{Token, Error, ident, str}
use mocktrue.GraphFilter.Parser.{is_keyword, expect_string, numeric_comparison, string_comparison}
use mocktrue.GraphFilter.Parser.{parse_comparison, parse_unary, parse_primary}
use mocktrue.GraphFilter.Language.{Expr, number_test, text_test, eval, print}
use mocktrue.GraphFilter.Language.{Level, whole, under_and, related, value_of}
use mocktrue.GraphFilter.Language.{Relation, equal, sign}
use mocktrue.GraphFilter.Language.{TextRelation, containing, text_sign}
use mocktrue.GraphFilter.Language.{
  NumericField, len, numeric_name, StringField, string_name, text, hex, first_filled,
}
use mocktrue.GraphFilter.Language.Levels.{Unary}
use mocktrue.GraphFilter.Language.Decimal.{atoi-itoa}

compare_number-sign : (a n : ℕ) (r : Relation) → compare_number a (sign r) n ≡ related r a n
unfolding compare_number text_eq
compare_number-sign a n equal = refl
compare_number-sign a n _ = refl

is_numeric_operator-sign : (r : Relation) → is_numeric_operator (sign r) ≡ true
unfolding is_numeric_operator text_eq
is_numeric_operator-sign equal = refl
is_numeric_operator-sign _ = refl

first_filled_lem : (s t : Text) → (if not (text_eq s []) then s else t) ≡ first_filled s t
unfolding text_eq
first_filled_lem [] t = refl
first_filled_lem (a ∷ s) t = refl

module _ (c : Candidate) (o : Options) where
  numeric_field-name : (field : NumericField) → numeric_field c (numeric_name field) ≡ some (size c)
  unfolding numeric_field text_eq to_lower
  numeric_field-name len = refl
  numeric_field-name _ = refl

  numeric_field-string_name : (field : StringField) → numeric_field c (string_name field) ≡ none
  unfolding numeric_field text_eq to_lower
  numeric_field-string_name text = refl
  numeric_field-string_name _ = refl

  string_field-name :
      (field : StringField) → string_field c (string_name field) ≡ some (value_of c field)
  unfolding string_field text_eq to_lower
  string_field-name text = ap some (first_filled_lem c.text c.payload_text)
  string_field-name hex = ap some (first_filled_lem c.hex c.payload_hex)
  string_field-name _ = refl

  abbrev Reads : (List Token → Result Error (Bool × List Token)) → Expr → Level → Type 0
  Reads p e l = (rest : List Token) → p (print e l ++ rest) ≡ ok (eval c o e, rest)

  parse_comparison-number :
      (field : NumericField) (r : Relation) (n : ℕ) (l : Level)
      → n < 2 ^ 63
      → Reads (parse_comparison c o) (number_test field r n) l
  unfolding parse_comparison numeric_comparison
  parse_comparison-number field r n l h rest =
      rw
        (
          parse_comparison,
          numeric_field-name field,
          numeric_comparison,
          is_numeric_operator-sign r,
          atoi-itoa n h,
          compare_number-sign (size c) n r,
        )
        refl

  string_comparison-sign :
      (field : StringField) (r : TextRelation) (value : Text) (rest : List Token)
      → string_comparison c o
          (string_name field)
          (value_of c field)
          (text_sign r ∷ str value ∷ rest)
        ≡ ok (eval c o (text_test field r value), rest)
  unfolding string_comparison expect_string equal_fold text_eq to_lower compare_string
  string_comparison-sign field containing value rest = refl
  string_comparison-sign field _ value rest = refl

  parse_comparison-text :
      (field : StringField) (r : TextRelation) (value : Text) (l : Level)
      → Reads (parse_comparison c o) (text_test field r value) l
  unfolding parse_comparison
  parse_comparison-text field r value l rest =
      rw (parse_comparison, numeric_field-string_name field, string_field-name field)
        (string_comparison-sign field r value rest)

  not_keyword_numeric :
      (field : NumericField) → is_keyword (codes "not") (ident (numeric_name field)) ≡ false
  unfolding equal_fold text_eq to_lower
  not_keyword_numeric len = refl
  not_keyword_numeric _ = refl

  not_keyword_text :
      (field : StringField) → is_keyword (codes "not") (ident (string_name field)) ≡ false
  unfolding equal_fold text_eq to_lower
  not_keyword_text text = refl
  not_keyword_text _ = refl

  pub number-Unary :
      (field : NumericField) (r : Relation) (n : ℕ)
      → n < 2 ^ 63
      → Unary c o 2 (print (number_test field r n) under_and) (eval c o (number_test field r n))
  unfolding parse_unary parse_primary
  number-Unary field r n h rest zero le = absurd (omega arith)
  number-Unary field r n h rest (suc zero) le = absurd (omega arith)
  number-Unary field r n h rest (suc (suc g)) le =
      rw (parse_unary, not_keyword_numeric field, parse_primary)
        (parse_comparison-number field r n whole h rest)

  pub text-Unary :
      (field : StringField) (r : TextRelation) (value : Text)
      → Unary c o 2 (print (text_test field r value) under_and) (eval c o (text_test field r value))
  unfolding parse_unary parse_primary
  text-Unary field r value rest zero le = absurd (omega arith)
  text-Unary field r value rest (suc zero) le = absurd (omega arith)
  text-Unary field r value rest (suc (suc g)) le =
      rw (parse_unary, not_keyword_text field, parse_primary)
        (parse_comparison-text field r value whole rest)
