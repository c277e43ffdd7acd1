-- ===== src/GraphFilter/Language/Written.antt =====
-- The text of a tree, through the tokenizer and the parser of graph_filter.go.
use mocktrue.Base.{
  ℕ, zero, suc, ◌+◌, ◌/◌, ◌%◌, ◌^◌, ◌<◌, ◌≡◌, ◌≢◌, refl, List, [], ◌∷◌, Bool, true, false,
}
use mocktrue.Base.{
  All, All-append, Text, Result, ok, err, arith, ◌==◌, not, codes, text_eq, lt→ltb, Bool-cases, inl,
  inr, ◌>>=◌,
}
use mocktrue.GraphFilter.Candidate.{Candidate, Options, is_numeric_operator}
use mocktrue.GraphFilter.Token.{
  Token, Error, rparen, ident, number, operator, is_digit, is_identifier_start, is_identifier_part,
  tokenize, out_of_fuel,
}
use mocktrue.GraphFilter.Token.Render.{render, IsWritten}
use mocktrue.GraphFilter.Token.Reading.{tokenize-render}
use mocktrue.GraphFilter.Token.Fuel.{tokenize_ends}
use mocktrue.GraphFilter.Parser.{parse}
use mocktrue.GraphFilter.Parser.Fuel.{parse_ends}
use mocktrue.GraphFilter.Match.{decimal, itoa, match_expression}
use mocktrue.GraphFilter.Language.{
  Expr, number_test, text_test, negate, both, either, eval, print, IsSized, parens, is_under_and,
  is_whole,
}
use mocktrue.GraphFilter.Language.{Level, whole, under_or, under_and}
use mocktrue.GraphFilter.Language.{Relation, equal, sign}
use mocktrue.GraphFilter.Language.{TextRelation, containing, text_sign}
use mocktrue.GraphFilter.Language.{NumericField, len, numeric_name, StringField, string_name, text}
use mocktrue.GraphFilter.Language.Reading.{parse-print}

is_digit-mod : (n : ℕ) → is_digit (b'0' + n % 10) ≡ true
unfolding is_digit
is_digit-mod n = ground arith

decimal-IsWritten :
    (f n : ℕ) (behind : Text) → IsWritten (number behind) → IsWritten (number (decimal f n behind))
unfolding decimal
decimal-IsWritten zero n behind w = w
decimal-IsWritten (suc f) n [] w = absurd w
decimal-IsWritten (suc f) n (c ∷ cs) w = elim (Bool-cases ((n / 10) == 0)) [
  | inl e ↦ rw e (is_digit-mod n, w)
  | inr e ↦ rw e (decimal-IsWritten f (n / 10) ((b'0' + n % 10) ∷ c ∷ cs) (is_digit-mod n, w))
]

itoa-IsWritten : (n : ℕ) → n < 2 ^ 63 → IsWritten (number (itoa n))
unfolding itoa decimal
itoa-IsWritten n h = elim (Bool-cases ((n / 10) == 0)) [
  | inl e ↦ rw (lt→ltb n (2 ^ 63) h, e) (is_digit-mod n, tt)
  | inr e ↦
      rw (lt→ltb n (2 ^ 63) h, e)
        (decimal-IsWritten 19 (n / 10) ((b'0' + n % 10) ∷ []) (is_digit-mod n, tt))
]

numeric_name-IsWritten : (field : NumericField) → IsWritten (ident (numeric_name field))
unfolding is_identifier_part is_identifier_start is_digit
numeric_name-IsWritten len = ground arith
numeric_name-IsWritten _ = ground arith

string_name-IsWritten : (field : StringField) → IsWritten (ident (string_name field))
unfolding is_identifier_part is_identifier_start is_digit
string_name-IsWritten text = ground arith
string_name-IsWritten _ = ground arith

sign-IsWritten : (r : Relation) → IsWritten (operator (sign r))
unfolding is_numeric_operator text_eq
sign-IsWritten equal = refl
sign-IsWritten _ = refl

text_sign-IsWritten : (r : TextRelation) → IsWritten (text_sign r)
unfolding is_numeric_operator text_eq is_identifier_part is_identifier_start is_digit
text_sign-IsWritten containing = ground arith
text_sign-IsWritten _ = refl

keyword-IsWritten :
    IsWritten (ident (codes "and"))
    × IsWritten (ident (codes "or"))
    × IsWritten (ident (codes "not"))
unfolding is_identifier_part is_identifier_start is_digit
keyword-IsWritten = ground arith

parens-IsWritten : (b : Bool) (ts : List Token) → All IsWritten ts → All IsWritten (parens b ts)
parens-IsWritten true ts h = (tt, All-append IsWritten ts (rparen ∷ []) h (tt, tt))
parens-IsWritten false ts h = h

print-IsWritten : (e : Expr) (l : Level) → IsSized e → All IsWritten (print e l)
print-IsWritten (number_test field r n) l h =
    (numeric_name-IsWritten field, (sign-IsWritten r, (itoa-IsWritten n h, tt)))
print-IsWritten (text_test field r value) l h =
    (string_name-IsWritten field, (text_sign-IsWritten r, (tt, tt)))
print-IsWritten (negate e) l h = (keyword-IsWritten.2, print-IsWritten e under_and h)
print-IsWritten (both a b) l (ha, hb) = parens-IsWritten (is_under_and l) _ (
    All-append IsWritten (print a under_or) _ (print-IsWritten a under_or ha)
      (keyword-IsWritten.0, print-IsWritten b under_and hb))
print-IsWritten (either a b) l (ha, hb) = parens-IsWritten (not (is_whole l)) _ (
    All-append IsWritten (print a whole) _ (print-IsWritten a whole ha)
      (keyword-IsWritten.1, print-IsWritten b under_or hb))

-- An expression of the filter language that is printed as text, its parentheses put by the
-- precedence of `or`, `and` and `not` and its strings escaped, is tokenized, parsed and evaluated to
-- what its tree says of the candidate, when its numbers are below 2^63.
pub match_expression-render :
    (c : Candidate) (o : Options) (e : Expr)
    → IsSized e
    → match_expression c o (render (print e whole)) ≡ ok (eval c o e)
unfolding match_expression
match_expression-render c o e h =
    rw (tokenize-render (print e whole) (print-IsWritten e whole h)) (parse-print c o e h)

-- The tokenizer and the recursive descent come to an end on every text: whatever the expression, the
-- fuel that they start with is never used up.
pub match_expression_ends :
    (c : Candidate) (o : Options) (s : Text) → match_expression c o s ≢ err out_of_fuel
unfolding match_expression
match_expression_ends c o s = after (tokenize s) (tokenize_ends s)
  where
    after :
        (m : Result Error (List Token)) → m ≢ err out_of_fuel → (m >>= parse c o) ≢ err out_of_fuel
    after (ok ts) h e = parse_ends c o ts e
    after (err x) h e = h cc
