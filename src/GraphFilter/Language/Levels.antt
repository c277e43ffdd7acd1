-- ===== src/GraphFilter/Language/Levels.antt =====
-- What each level of the recursive descent of graph_filter.go reads, and how the levels compose.
use mocktrue.Base.{ℕ, zero, suc, ◌+◌, ◌≤◌, ◌≡◌, refl, List, [], ◌∷◌, ◌++◌, append_assoc}
use mocktrue.Base.{Bool, false, not, ◌&&◌, ◌||◌, codes, Result, ok, arith, text_eq, to_lower}
use mocktrue.GraphFilter.Candidate.{Candidate, Options, equal_fold}
use mocktrue.GraphFilter.Token.{Token, Error, lparen, rparen, ident}
use mocktrue.GraphFilter.Parser.{
  peek, is_keyword, parse_or, or_loop, parse_and, and_loop, parse_unary,
}
use mocktrue.GraphFilter.Parser.{parse_primary, closing}

abbrev Answer : Type 0
Answer = Result Error (Bool × List Token)

-- Fuel from a successor on is a successor.
pub enough : {n : ℕ} (P : ℕ → Type 0) → ((g : ℕ) → n ≤ g → P (suc g)) → (f : ℕ) → suc n ≤ f → P f
enough P k zero h = absurd (omega arith)
enough P k (suc g) h = k g (omega arith)

module _ (c : Candidate) (o : Options) where
  -- With fuel from `n` on the tokens `ts` are read as the value `v`.
  abbrev pub Unary : ℕ → List Token → Bool → Type 0
  Unary n ts v = (rest : List Token) (f : ℕ) → n ≤ f → parse_unary c o f (ts ++ rest) ≡ ok (v, rest)

  -- The loop goes on behind them.
  abbrev pub Conjunction : ℕ → List Token → Bool → Type 0
  Conjunction n ts v =
      (rest : List Token) (m : ℕ) (r : Answer)
      → ((g : ℕ) → m ≤ g → and_loop c o g v rest ≡ r)
      → (f : ℕ) → m + n ≤ f
      → parse_and c o f (ts ++ rest) ≡ r

  abbrev pub Disjunction : ℕ → List Token → Bool → Type 0
  Disjunction n ts v =
      (rest : List Token)
      → is_keyword (codes "and") (peek rest) ≡ false
      → (m : ℕ) (r : Answer) → ((g : ℕ) → m ≤ g → or_loop c o g v rest ≡ r)
      → (f : ℕ) → m + n ≤ f
      → parse_or c o f (ts ++ rest) ≡ r

  pub negated :
      (n : ℕ) (ts : List Token) (v : Bool)
      → Unary n ts v
      → Unary (suc n) (ident (codes "not") ∷ ts) (not v)
  unfolding parse_unary equal_fold text_eq to_lower
  negated n ts v u rest = enough _ λ g le. rw (parse_unary, u rest g le) refl

  pub Unary→Conjunction :
      (n : ℕ) (ts : List Token) (v : Bool) → Unary n ts v → Conjunction (suc n) ts v
  unfolding parse_and
  Unary→Conjunction n ts v u rest m r go zero h = absurd (omega arith)
  Unary→Conjunction n ts v u rest m r go (suc g) h =
      rw (parse_and, u rest g (omega arith)) (go g (omega arith))

  and_stop :
      (v : Bool) (rest : List Token)
      → is_keyword (codes "and") (peek rest) ≡ false
      → (g : ℕ) → 1 ≤ g
      → and_loop c o g v rest ≡ ok (v, rest)
  unfolding and_loop
  and_stop v rest e = enough _ λ g le. rw (and_loop, e) refl

  or_stop :
      (v : Bool) (rest : List Token)
      → is_keyword (codes "or") (peek rest) ≡ false
      → (g : ℕ) → 1 ≤ g
      → or_loop c o g v rest ≡ ok (v, rest)
  unfolding or_loop
  or_stop v rest e = enough _ λ g le. rw (or_loop, e) refl

  pub Conjunction→Disjunction :
      (n : ℕ) (ts : List Token) (v : Bool) → Conjunction n ts v → Disjunction (suc (suc n)) ts v
  unfolding parse_or
  Conjunction→Disjunction n ts v k rest no_and m r go zero h = absurd (omega arith)
  Conjunction→Disjunction n ts v k rest no_and m r go (suc g) h =
      rw (parse_or, k rest 1 _ (and_stop v rest no_and) g (omega arith)) (go g (omega arith))

  pub conjoined :
      (n k : ℕ) (ts us : List Token) (v w : Bool)
      → Conjunction n ts v
      → Unary k us w
      → Conjunction (suc (n + k)) (ts ++ (ident (codes "and") ∷ us)) (v && w)
  unfolding and_loop equal_fold text_eq to_lower
  conjoined n k ts us v w a b rest m r go f h = rw (append_assoc ts) (
      a (ident (codes "and") ∷ (us ++ rest)) (suc (k + m)) r
        (enough _ λ g le. rw (and_loop, b rest g (omega arith)) (go g (omega arith))) f
        (omega arith))

  pub disjoined :
      (n k : ℕ) (ts us : List Token) (v w : Bool)
      → Disjunction n ts v
      → Conjunction k us w
      → Disjunction (suc (suc (n + k))) (ts ++ (ident (codes "or") ∷ us)) (v || w)
  unfolding or_loop equal_fold text_eq to_lower
  disjoined n k ts us v w a b rest no_and m r go f h = rw (append_assoc ts) (
      a (ident (codes "or") ∷ (us ++ rest)) refl (suc (suc (k + m))) r
        (enough _ λ g le.
          rw (or_loop, b rest 1 _ (and_stop w rest no_and) g (omega arith)) (go g (omega arith)))
        f (omega arith))

  primary :
      (n : ℕ) (ts : List Token) (v : Bool) (rest : List Token)
      → Disjunction n ts v
      → (f : ℕ) → suc (suc n) ≤ f
      → parse_primary c o f (lparen ∷ (ts ++ (rparen ∷ [])) ++ rest) ≡ ok (v, rest)
  unfolding parse_primary closing
  primary n ts v rest d = enough _ λ g le.
      rw
        (
          parse_primary,
          append_assoc ts,
          d (rparen ∷ rest) refl 1 _ (or_stop v (rparen ∷ rest) refl) g (omega arith),
        )
        refl

  pub bracketed :
      (n : ℕ) (ts : List Token) (v : Bool)
      → Disjunction n ts v
      → Unary (suc (suc (suc n))) (lparen ∷ (ts ++ (rparen ∷ []))) v
  unfolding parse_unary
  bracketed n ts v d rest = enough _ λ g le. rw (parse_unary, primary n ts v rest d g le) refl
