-- ===== src/GraphFilter/Token.antt =====
-- `tokenizeSerialGraphFilterExpression`: the tokens of an expression.
pub mod Fuel
pub mod Render
mod Scan
pub mod Reading
use mocktrue.Base.{ℕ, zero, suc, ◌+◌, List, [], ◌∷◌, Bool, ◌&&◌, ◌||◌}
use mocktrue.Base.{◌==◌, leb, if◌then◌else◌, length, Text, Result, ok, err, ◌>>=◌}
use mocktrue.GraphFilter.Candidate.{is_space}

-- The errors of the filter, by their messages; `out_of_fuel` has no counterpart in the code.
pub data Error : Type 0 where
  unknown_mode invalid_regex unexpected_token unterminated_string expected_field : Error
  expected_closing expected_numeric_comparison expected_numeric_literal : Error
  invalid_numeric_literal unknown_field expected_string_comparison expected_string : Error
  out_of_fuel : Error

-- A token with its kind as the constructor.
pub data Token : Type 0 where
  eof lparen rparen : Token
  ident number str operator : Text → Token

unfoldable pub is_digit : ℕ → Bool
is_digit c = leb b'0' c && leb c b'9'

unfoldable pub is_identifier_start : ℕ → Bool
is_identifier_start c = (leb b'A' c && leb c b'Z') || ((leb b'a' c && leb c b'z') || c == b'_')

unfoldable pub is_identifier_part : ℕ → Bool
unfolding is_identifier_start is_digit
is_identifier_part c = is_identifier_start c || is_digit c

-- The bytes that pass the test, up to the first that does not, and the rest.
unfoldable pub span : (ℕ → Bool) → Text → Text × Text
span p [] = ([], [])
span p (c ∷ cs) = let (taken, rest) = span p cs in if p c then (c ∷ taken, rest) else ([], c ∷ cs)

unfoldable pub unescape : ℕ → ℕ
unescape c = if c == b'n' then 10 else if c == b'r' then 13 else if c == b't' then 9 else c

abbrev pub put_byte : ℕ → Result Error (Text × Text) → Result Error (Text × Text)
put_byte c (ok (value, rest)) = ok (c ∷ value, rest)
put_byte c (err e) = err e

-- From behind the opening quote: the value and what follows the closing one.
unfoldable pub scan_string : Text → Result Error (Text × Text)
unfolding unescape
scan_string [] = err unterminated_string
scan_string (c ∷ []) = if c == b'"' then ok ([], []) else err unterminated_string
scan_string (c ∷ d ∷ rest) =
    let escaped = put_byte (unescape d) (scan_string rest) in
    let plain = put_byte c (scan_string (d ∷ rest)) in
    if c == b'"' then ok ([], d ∷ rest) else if c == 92 then escaped else plain

abbrev pub put_token : Token → Result Error (List Token) → Result Error (List Token)
put_token t (ok ts) = ok (t ∷ ts)
put_token t (err e) = err e

-- An operator at the head of the input: its length is that of the text.
unfoldable pub scan_operator : ℕ → Text → Result Error (Text × Text)
scan_operator c [] = if c == b'>' || c == b'<' then ok (c ∷ [], []) else err unexpected_token
scan_operator c (d ∷ rest) =
    if d == b'=' && (c == b'=' || (c == b'!' || (c == b'>' || c == b'<')))
    then ok (c ∷ d ∷ [], rest)
    else if c == b'>' || c == b'<'
    then ok (c ∷ [], d ∷ rest)
    else err unexpected_token

-- The loop, with a round of fuel for each token and each blank.
unfoldable pub tokenize_from : ℕ → Text → Result Error (List Token)
tokenize_from zero input = err out_of_fuel
tokenize_from (suc fuel) [] = ok (eof ∷ [])
tokenize_from (suc fuel) (c ∷ cs) =
    let blank = tokenize_from fuel cs in
    let opening = put_token lparen (tokenize_from fuel cs) in
    let closing = put_token rparen (tokenize_from fuel cs) in
    let quoted =
      scan_string cs >>= λ (value, rest). put_token (str value) (tokenize_from fuel rest) in
    let (digits, behind) = span is_digit (c ∷ cs) in
    let numeric = put_token (number digits) (tokenize_from fuel behind) in
    let (name, after) = span is_identifier_part (c ∷ cs) in
    let word = put_token (ident name) (tokenize_from fuel after) in
    let sign =
      scan_operator c cs >>= λ (o, rest). put_token (operator o) (tokenize_from fuel rest) in
    if is_space c
    then blank
    else if c == b'('
    then opening
    else if c == b')'
    then closing
    else if c == b'"'
    then quoted
    else if is_digit c
    then numeric
    else if is_identifier_start c
    then word
    else sign

unfoldable pub tokenize : Text → Result Error (List Token)
tokenize input = tokenize_from (length input + 1) input
