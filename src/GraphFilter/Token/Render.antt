-- ===== src/GraphFilter/Token/Render.antt =====
-- Tokens written with a blank behind each.
use mocktrue.Base.{◌≡◌, List, [], ◌∷◌, ◌++◌, true, All}
use mocktrue.Base.{Text, if◌then◌else◌, ◌==◌, ◌||◌}
use mocktrue.GraphFilter.Candidate.{is_numeric_operator}
use mocktrue.GraphFilter.Token.{Token, lparen, rparen, ident, number, str, operator, eof}
use mocktrue.GraphFilter.Token.{is_digit, is_identifier_start, is_identifier_part}

-- A quote, a backslash and the three control bytes are written with a backslash.
unfoldable pub escape : Text → Text
escape [] = []
escape (c ∷ cs) =
    let rest = escape cs in
    if c == b'"' || c == 92
    then 92 ∷ c ∷ rest
    else if c == 10
    then 92 ∷ b'n' ∷ rest
    else if c == 13
    then 92 ∷ b'r' ∷ rest
    else if c == 9
    then 92 ∷ b't' ∷ rest
    else c ∷ rest

abbrev pub render_token : Token → Text → Text
render_token eof rest = rest
render_token lparen rest = b'(' ∷ rest
render_token rparen rest = b')' ∷ rest
render_token (ident name) rest = name ++ rest
render_token (number digits) rest = digits ++ rest
render_token (str value) rest = b'"' ∷ (escape value ++ (b'"' ∷ rest))
render_token (operator o) rest = o ++ rest

abbrev pub render : List Token → Text
render [] = []
render (t ∷ ts) = render_token t (32 ∷ render ts)

-- The tokens that the tokenizer makes, the end aside.
abbrev pub IsWritten : Token → Type 0
IsWritten eof = ⊥
IsWritten (ident []) = ⊥
IsWritten (ident (c ∷ cs)) =
    (is_identifier_start c ≡ true) × All (λ d. is_identifier_part d ≡ true) cs
IsWritten (number []) = ⊥
IsWritten (number (c ∷ cs)) = (is_digit c ≡ true) × All (λ d. is_digit d ≡ true) cs
IsWritten (operator o) = is_numeric_operator o ≡ true
IsWritten _ = Unit {0}
