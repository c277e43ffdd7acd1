-- ===== src/GraphFilter/Token/Fuel.antt =====
-- The tokenizer of graph_filter.go ends: each round takes at least a byte.
use mocktrue.Base.{ℕ, zero, suc, ◌+◌, ◌<◌, ◌≤◌, ◌≡◌, ◌≢◌, refl, List, [], ◌∷◌, Bool, true, false}
use mocktrue.Base.{length, Text, Result, ok, err, arith, if◌then◌else◌, ◌>>=◌, ◌==◌, ◌&&◌, ◌||◌}
use mocktrue.GraphFilter.Candidate.{is_space}
use mocktrue.GraphFilter.Token.{
  Token, Error, lparen, rparen, ident, number, str, operator, out_of_fuel,
}
use mocktrue.GraphFilter.Token.{
  is_digit, is_identifier_start, is_identifier_part, span, scan_string, put_byte, put_token,
  scan_operator, tokenize_from, tokenize, unescape,
}

-- An answer that leaves at most `n` bytes, or an error other than that of the fuel.
abbrev Leaves : ℕ → Result Error (Text × Text) → Type 0
Leaves n (ok (value, rest)) = length rest ≤ n
Leaves n (err e) = e ≢ out_of_fuel

span-length : (p : ℕ → Bool) (s : Text) → length ((span p s).1) ≤ length s
unfolding span
span-length p [] = omega arith
span-length p (c ∷ cs) = ground (arith, span-length p cs)

span-length_head :
    (p : ℕ → Bool) (c : ℕ) (cs : Text) → p c ≡ true → length ((span p (c ∷ cs)).1) ≤ length cs
unfolding span
span-length_head p c cs h = rw h (span-length p cs)

put_byte-Leaves :
    (n k c : ℕ) (m : Result Error (Text × Text)) → n < k → Leaves n m → Leaves k (put_byte c m)
put_byte-Leaves n k c (ok (v, rest)) lt h = omega arith
put_byte-Leaves n k c (err e) lt h = h

if-Leaves :
    (n : ℕ) (b : Bool) (x y : Result Error (Text × Text))
    → Leaves n x
    → Leaves n y
    → Leaves n (if b then x else y)
if-Leaves n true x y hx hy = hx
if-Leaves n false x y hx hy = hy

scan_string-Leaves : (s : Text) → Leaves (length s) (scan_string s)
unfolding scan_string
scan_string-Leaves [] = λ e. cc
scan_string-Leaves (c ∷ []) = if-Leaves _ (c == b'"') _ _ (omega arith) (λ e. cc)
scan_string-Leaves (c ∷ d ∷ rest) = if-Leaves _ (c == b'"') _ _ (omega arith) (
    if-Leaves _ (c == 92) _ _
      (put_byte-Leaves (length rest) _ (unescape d) (scan_string rest) (omega arith)
        (scan_string-Leaves rest))
      (put_byte-Leaves (suc (length rest)) _ c (scan_string (d ∷ rest)) (omega arith)
        (scan_string-Leaves (d ∷ rest))))

scan_operator-Leaves : (c : ℕ) (s : Text) → Leaves (length s) (scan_operator c s)
unfolding scan_operator
scan_operator-Leaves c [] = if-Leaves _ (c == b'>' || c == b'<') _ _ (omega arith) (λ e. cc)
scan_operator-Leaves c (d ∷ rest) =
    if-Leaves _ (d == b'=' && (c == b'=' || (c == b'!' || (c == b'>' || c == b'<')))) _ _
      (omega arith) (if-Leaves _ (c == b'>' || c == b'<') _ _ (omega arith) (λ e. cc))

put_token-fuel :
    (t : Token) (m : Result Error (List Token))
    → m ≢ err out_of_fuel
    → put_token t m ≢ err out_of_fuel
put_token-fuel t (ok ts) h e = cc
put_token-fuel t (err x) h e = h cc

scan-fuel :
    (n : ℕ) (m : Result Error (Text × Text)) (f : Text → Token)
    (go : Text → Result Error (List Token))
    → Leaves n m
    → ((rest : Text) → length rest ≤ n → go rest ≢ err out_of_fuel)
    → (m >>= λ (value, rest). put_token (f value) (go rest)) ≢ err out_of_fuel
scan-fuel n (ok (v, rest)) f go h k e = put_token-fuel (f v) (go rest) (k rest h) e
scan-fuel n (err x) f go h k e = h cc

start_is_part : (d : ℕ) → is_identifier_start d ≡ true → is_identifier_part d ≡ true
unfolding is_identifier_part
start_is_part d e = rw e refl

tokenize_from_ends :
    (fuel : ℕ) (s : Text) → length s < fuel → tokenize_from fuel s ≢ err out_of_fuel
unfolding tokenize_from
tokenize_from_ends zero s h = absurd (omega arith)
tokenize_from_ends (suc fuel) [] h = λ e. cc
tokenize_from_ends (suc fuel) (c ∷ cs) h =
    let next =
      λ (rest : Text) (le : length rest ≤ length cs). tokenize_from_ends fuel rest (omega arith) in
    if_fuel (is_space c) _ _ (λ _. next cs (omega arith))
      (λ _.
        if_fuel (c == b'(') _ _ (λ _. put_token-fuel lparen _ (next cs (omega arith)))
          (λ _.
            if_fuel (c == b')') _ _ (λ _. put_token-fuel rparen _ (next cs (omega arith)))
              (λ _.
                if_fuel (c == b'"') _ _
                  (λ _.
                    scan-fuel (length cs) (scan_string cs) str (tokenize_from fuel)
                      (scan_string-Leaves cs) next)
                  (λ _.
                    if_fuel (is_digit c) _ _
                      (λ d.
                        put_token-fuel (number (span is_digit (c ∷ cs)).0) _
                          (next _ (span-length_head is_digit c cs d)))
                      (λ _.
                        if_fuel (is_identifier_start c) _ _
                          (λ d.
                            put_token-fuel (ident (span is_identifier_part (c ∷ cs)).0) _ (
                              next _
                                (span-length_head is_identifier_part c cs (start_is_part c d))))
                          (λ _.
                            scan-fuel (length cs) (scan_operator c cs) operator (tokenize_from fuel)
                              (scan_operator-Leaves c cs) next))))))
  where
    if_fuel :
        (b : Bool) (x y : Result Error (List Token))
        → (b ≡ true → x ≢ err out_of_fuel)
        → (b ≡ false → y ≢ err out_of_fuel)
        → (if b then x else y) ≢ err out_of_fuel
    if_fuel true x y hx hy = hx refl
    if_fuel false x y hx hy = hy refl

-- The tokenizer comes to an end on every text.
pub tokenize_ends : (s : Text) → tokenize s ≢ err out_of_fuel
unfolding tokenize
tokenize_ends s = tokenize_from_ends (length s + 1) s (omega arith)
