-- ===== src/GraphFilter/Token/Reading.antt =====
-- The tokenizer of graph_filter.go on what is written.
use mocktrue.Base.{ℕ, zero, suc, ◌+◌, ◌<◌, ◌≤◌, ◌≡◌, refl, List, [], ◌∷◌, ◌++◌, true, false, All}
use mocktrue.Base.{
  length, length-append, Text, ok, arith, Bool-cases, inl, inr, ◌==◌, codes, text_eq, text_eq→eq,
}
use mocktrue.GraphFilter.Token.Render.{escape, render_token, render, IsWritten}
use mocktrue.GraphFilter.Token.Scan.{span-append, scan_string-escape}
use mocktrue.GraphFilter.Candidate.{is_space, is_numeric_operator}
use mocktrue.GraphFilter.Token.{Token, lparen, rparen, ident, number, str, operator, eof}
use mocktrue.GraphFilter.Token.{
  is_digit, is_identifier_start, is_identifier_part, put_token, scan_operator, tokenize_from,
  tokenize,
}

digit_bounds : (c : ℕ) → is_digit c ≡ true → (48 ≤ c) × (c ≤ 57)
unfolding is_digit
digit_bounds c h = ground arith

start_bounds : (c : ℕ) → is_identifier_start c ≡ true → (65 ≤ c) × (c ≤ 122)
unfolding is_identifier_start
start_bounds c h = ground arith

-- The tests before those for digits and names.
word_byte :
    (c : ℕ)
    → 48 ≤ c
    → c ≤ 122
    → (is_space c ≡ false) × ((c == b'(') ≡ false) × ((c == b')') ≡ false) × ((c == b'"') ≡ false)
unfolding is_space
word_byte c lo hi = (ground arith, ground arith, ground arith, ground arith)

start_is_no_digit : (c : ℕ) → 65 ≤ c → is_digit c ≡ false
unfolding is_digit
start_is_no_digit c lo = ground arith

start_is_part : (d : ℕ) → is_identifier_start d ≡ true → is_identifier_part d ≡ true
unfolding is_identifier_part
start_is_part d e = rw e refl

no_digit : is_digit 32 ≡ false
unfolding is_digit
no_digit = refl

no_part : is_identifier_part 32 ≡ false
unfolding is_identifier_part is_identifier_start is_digit
no_part = refl

-- A blank is passed over.
blank_read : (f : ℕ) (rest : Text) → tokenize_from (suc f) (32 ∷ rest) ≡ tokenize_from f rest
unfolding tokenize_from is_space
blank_read f rest = refl

-- Each token is read off, and its blank after it.
bracket_read :
    (rest : Text) (f : ℕ)
    → (tokenize_from (suc (suc f)) (b'(' ∷ 32 ∷ rest) ≡ put_token lparen (tokenize_from f rest))
      × (tokenize_from (suc (suc f)) (b')' ∷ 32 ∷ rest) ≡ put_token rparen (tokenize_from f rest))
unfolding tokenize_from is_space
bracket_read rest f = (refl, refl)

string_read :
    (value rest : Text) (f : ℕ)
    → tokenize_from (suc (suc f)) (b'"' ∷ (escape value ++ (b'"' ∷ 32 ∷ rest)))
      ≡ put_token (str value) (tokenize_from f rest)
unfolding tokenize_from is_space
string_read value rest f = rw (scan_string-escape value rest) refl

digits_read :
    (c : ℕ) (cs rest : Text) (f : ℕ)
    → is_digit c ≡ true
    → All (λ d. is_digit d ≡ true) cs
    → tokenize_from (suc (suc f)) (c ∷ (cs ++ (32 ∷ rest)))
      ≡ put_token (number (c ∷ cs)) (tokenize_from f rest)
unfolding tokenize_from
digits_read c cs rest f d ds =
    let (lo, hi) = digit_bounds c d in
    let (sp, l, r, q) = word_byte c lo (omega arith) in
    let read = span-append is_digit (c ∷ cs) rest (d, ds) no_digit in
    rw (sp, l, r, q, d, read, blank_read f rest) refl

name_read :
    (c : ℕ) (cs rest : Text) (f : ℕ)
    → is_identifier_start c ≡ true
    → All (λ d. is_identifier_part d ≡ true) cs
    → tokenize_from (suc (suc f)) (c ∷ (cs ++ (32 ∷ rest)))
      ≡ put_token (ident (c ∷ cs)) (tokenize_from f rest)
unfolding tokenize_from
name_read c cs rest f s ps =
    let (lo, hi) = start_bounds c s in
    let (sp, l, r, q) = word_byte c (omega arith) hi in
    let read = span-append is_identifier_part (c ∷ cs) rest (start_is_part c s, ps) no_part in
    rw (sp, l, r, q, start_is_no_digit c lo, s, read, blank_read f rest) refl

by_sign :
    (P : Text → Type 0)
    → P (codes "==")
    → P (codes "!=")
    → P (codes ">")
    → P (codes ">=")
    → P (codes "<")
    → P (codes "<=")
    → (o : Text) → is_numeric_operator o ≡ true
    → P o
unfolding is_numeric_operator
by_sign P a b c d e f o h = elim (Bool-cases (text_eq o (codes "=="))) [
  | inl q ↦ rw (text_eq→eq o _ q) a
  | inr q ↦ elim (Bool-cases (text_eq o (codes "!="))) [
    | inl r ↦ rw (text_eq→eq o _ r) b
    | inr r ↦ elim (Bool-cases (text_eq o (codes ">"))) [
      | inl s ↦ rw (text_eq→eq o _ s) c
      | inr s ↦ elim (Bool-cases (text_eq o (codes ">="))) [
        | inl t ↦ rw (text_eq→eq o _ t) d
        | inr t ↦ elim (Bool-cases (text_eq o (codes "<"))) [
          | inl u ↦ rw (text_eq→eq o _ u) e
          | inr u ↦ rw (text_eq→eq o (codes "<=") (rw (q, r, s, t, u) at h)) f
        ]
      ]
    ]
  ]
]

operator_read :
    (rest : Text) (f : ℕ) (o : Text)
    → is_numeric_operator o ≡ true
    → tokenize_from (suc (suc f)) (o ++ (32 ∷ rest)) ≡ put_token (operator o) (tokenize_from f rest)
unfolding tokenize_from is_space is_digit is_identifier_start scan_operator
operator_read rest f = by_sign _ refl refl refl refl refl refl

token_read :
    (t : Token) (rest : Text) (f : ℕ)
    → IsWritten t
    → tokenize_from (suc (suc f)) (render_token t (32 ∷ rest)) ≡ put_token t (tokenize_from f rest)
token_read lparen rest f w = (bracket_read rest f).0
token_read rparen rest f w = (bracket_read rest f).1
token_read (str value) rest f w = string_read value rest f
token_read (ident []) rest f w = absurd w
token_read (ident (c ∷ cs)) rest f w = name_read c cs rest f w.0 w.1
token_read (number []) rest f w = absurd w
token_read (number (c ∷ cs)) rest f w = digits_read c cs rest f w.0 w.1
token_read (operator o) rest f w = operator_read rest f o w
token_read eof rest f w = absurd w

rendered_length :
    (t : Token) (rest : Text) → IsWritten t → 2 + length rest ≤ length (render_token t (32 ∷ rest))
unfolding is_numeric_operator text_eq
rendered_length lparen rest w = omega arith
rendered_length rparen rest w = omega arith
rendered_length (str value) rest w = omega (arith, length-append (escape value) (b'"' ∷ 32 ∷ rest))
rendered_length (ident []) rest w = absurd w
rendered_length (ident (c ∷ cs)) rest w = omega (arith, length-append cs (32 ∷ rest))
rendered_length (number []) rest w = absurd w
rendered_length (number (c ∷ cs)) rest w = omega (arith, length-append cs (32 ∷ rest))
rendered_length (operator []) rest w = absurd cc
rendered_length (operator (c ∷ o)) rest w = omega (arith, length-append o (32 ∷ rest))
rendered_length eof rest w = absurd w

render_read :
    (ts : List Token) (f : ℕ)
    → All IsWritten ts
    → length (render ts) < f
    → tokenize_from f (render ts) ≡ ok (ts ++ (eof ∷ []))
unfolding tokenize_from
render_read [] zero w h = absurd (omega arith)
render_read [] (suc f) w h = refl
render_read (t ∷ ts) zero w h = absurd (omega arith)
render_read (t ∷ ts) (suc zero) w h = absurd (omega (arith, rendered_length t (render ts) w.0))
render_read (t ∷ ts) (suc (suc f)) w h =
    rw
      (
        token_read t (render ts) f w.0,
        render_read ts f w.1 (omega (arith, rendered_length t (render ts) w.0)),
      )
      refl

-- What is written is read back, with the end behind it.
pub tokenize-render :
    (ts : List Token) → All IsWritten ts → tokenize (render ts) ≡ ok (ts ++ (eof ∷ []))
unfolding tokenize
tokenize-render ts w = render_read ts (length (render ts) + 1) w (omega arith)
