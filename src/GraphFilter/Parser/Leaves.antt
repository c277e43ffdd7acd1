-- ===== src/GraphFilter/Parser/Leaves.antt =====
-- The tokens that the comparisons of graph_filter.go leave.
use mocktrue.Base.{
  ℕ, suc, ◌≤◌, ◌≡◌, ◌≢◌, refl, List, [], ◌∷◌, Bool, true, false, Option, none, some,
}
use mocktrue.Base.{◌||◌, length, codes, Text, text_eq, Result, ok, err, arith, if◌then◌else◌}
use mocktrue.GraphFilter.Candidate.{
  Candidate, Options, numeric_field, string_field, equal_fold, compare_string,
}
use mocktrue.GraphFilter.Token.{Token, Error, rparen, ident, number, str, operator, out_of_fuel}
use mocktrue.GraphFilter.Parser.{
  Parser, bind, expect_string, numeric_comparison, string_comparison, atoi,
}
use mocktrue.GraphFilter.Parser.{parse_comparison, closing}

-- An answer that leaves at most `n` tokens, or an error other than that of the fuel.
abbrev pub Leaves : {A : Type 0} → ℕ → Result Error (A × List Token) → Type 0
Leaves n (ok (a, rest)) = length rest ≤ n
Leaves n (err e) = e ≢ out_of_fuel

pub bind-Leaves :
    {A B : Type 0} (n k : ℕ) (m : Result Error (A × List Token)) (g : A → Parser B)
    → Leaves n m
    → ((a : A) (rest : List Token) → length rest ≤ n → Leaves k (g a rest))
    → Leaves k (bind m g)
bind-Leaves n k (ok (a, rest)) g h k' = k' a rest h
bind-Leaves n k (err e) g h k' = h

pub map-Leaves :
    {A B : Type 0} (n : ℕ) (m : Result Error (A × List Token)) (f : A → B)
    → Leaves n m
    → Leaves n (bind m λ a rest. ok (f a, rest))
map-Leaves n (ok (a, rest)) f h = h
map-Leaves n (err e) f h = h

pub if-Leaves :
    {A : Type 0} (n : ℕ) (b : Bool) (x y : Result Error (A × List Token))
    → (b ≡ true → Leaves n x)
    → (b ≡ false → Leaves n y)
    → Leaves n (if b then x else y)
if-Leaves n true x y hx hy = hx refl
if-Leaves n false x y hx hy = hy refl

expect_string-Leaves : (ts : List Token) → Leaves (length ts) (expect_string ts)
unfolding expect_string
expect_string-Leaves [] = λ e. cc
expect_string-Leaves (str s ∷ ts) = omega arith
expect_string-Leaves (_ ∷ ts) = λ e. cc

pub weaken-Leaves :
    {A : Type 0} (n k : ℕ) (m : Result Error (A × List Token)) → n ≤ k → Leaves n m → Leaves k m
weaken-Leaves n k (ok (a, rest)) h l = omega arith
weaken-Leaves n k (err e) h l = l

option-Leaves :
    {A B : Type 0} (n : ℕ) (m : Option A) (x : Result Error (B × List Token))
    (f : A → Result Error (B × List Token))
    → Leaves n x
    → ((a : A) → Leaves n (f a))
    → Leaves n (elim m [ none ↦ x | some a ↦ f a ])
option-Leaves n none x f h k = h
option-Leaves n (some a) x f h k = k a

module _ (c : Candidate) (o : Options) where
  pub closing-Leaves : (v : Bool) (ts : List Token) → Leaves (length ts) (closing c o v ts)
  unfolding closing
  closing-Leaves v [] = λ e. cc
  closing-Leaves v (rparen ∷ ts) = omega arith
  closing-Leaves v (_ ∷ ts) = λ e. cc

  numeric_comparison-Leaves :
      (left : ℕ) (ts : List Token) → Leaves (length ts) (numeric_comparison c o left ts)
  unfolding numeric_comparison atoi
  numeric_comparison-Leaves left [] = λ e. cc
  numeric_comparison-Leaves left (operator op ∷ number digits ∷ ts) = ground arith
  numeric_comparison-Leaves left (operator op ∷ []) = ground arith
  numeric_comparison-Leaves left (operator op ∷ _ ∷ ts) = ground arith
  numeric_comparison-Leaves left (_ ∷ ts) = λ e. cc

  literal-Leaves :
      (field left op : Text) (ts : List Token)
      → Leaves
          (suc (length ts))
          (bind (expect_string ts) λ right rest. ok (compare_string field left op right o, rest))
  literal-Leaves field left op ts =
      map-Leaves _ (expect_string ts) (λ right. compare_string field left op right o)
        (weaken-Leaves _ _ (expect_string ts) (omega arith) (expect_string-Leaves ts))

  string_comparison-Leaves :
      (field left : Text) (ts : List Token)
      → Leaves (length ts) (string_comparison c o field left ts)
  unfolding string_comparison
  string_comparison-Leaves field left [] = λ e. cc
  string_comparison-Leaves field left (ident word ∷ ts) =
      if-Leaves {A = Bool} _ (equal_fold word (codes "contains")) _ _
        (λ _. literal-Leaves field left (codes "contains") ts) (λ _ e. cc)
  string_comparison-Leaves field left (operator op ∷ ts) =
      if-Leaves {A = Bool} _ (text_eq op (codes "==") || text_eq op (codes "!=")) _ _
        (λ _. literal-Leaves field left op ts) (λ _ e. cc)
  string_comparison-Leaves field left (_ ∷ ts) = λ e. cc

  pub parse_comparison-Leaves : (ts : List Token) → Leaves (length ts) (parse_comparison c o ts)
  unfolding parse_comparison
  parse_comparison-Leaves [] = λ e. cc
  parse_comparison-Leaves (ident field ∷ ts) =
      option-Leaves _ (numeric_field c field) _ _
        (option-Leaves _ (string_field c field) _ _ (λ e. cc)
          (λ left.
            weaken-Leaves _ _ (string_comparison c o field left ts) (omega arith)
              (string_comparison-Leaves field left ts)))
        (λ left.
          weaken-Leaves _ _ (numeric_comparison c o left ts) (omega arith)
            (numeric_comparison-Leaves left ts))
  parse_comparison-Leaves (_ ∷ ts) = λ e. cc
