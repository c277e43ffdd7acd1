-- ===== src/GraphFilter/Parser/Fuel.antt =====
-- The recursive descent of graph_filter.go ends: the fuel that `parse` starts with is enough.
use mocktrue.Base.{ℕ, zero, suc, ◌+◌, ◌*◌, ◌≤◌, ◌≢◌, List, [], ◌∷◌, Bool}
use mocktrue.Base.{not, ◌&&◌, ◌||◌, length, codes, Result, ok, err, arith}
use mocktrue.GraphFilter.Candidate.{Candidate, Options}
use mocktrue.GraphFilter.Token.{Token, Error, lparen, eof, out_of_fuel}
use mocktrue.GraphFilter.Parser.Leaves.{
  Leaves, bind-Leaves, map-Leaves, if-Leaves, weaken-Leaves, closing-Leaves,
  parse_comparison-Leaves,
}
use mocktrue.GraphFilter.Parser.{is_keyword}
use mocktrue.GraphFilter.Parser.{
  parse_or, or_loop, parse_and, and_loop, parse_unary, parse_primary, closing, finish, parse,
}

module _ (c : Candidate) (o : Options) where
  -- Every level, with the fuel that it needs.
  record Ends (f : ℕ) (ts : List Token) : Type 0 where
    or_ends : 5 * length ts + 4 ≤ f → Leaves (length ts) (parse_or c o f ts)
    or_loop_ends : (v : Bool) → 5 * length ts + 1 ≤ f → Leaves (length ts) (or_loop c o f v ts)
    and_ends : 5 * length ts + 3 ≤ f → Leaves (length ts) (parse_and c o f ts)
    and_loop_ends : (v : Bool) → 5 * length ts + 1 ≤ f → Leaves (length ts) (and_loop c o f v ts)
    unary_ends : 5 * length ts + 2 ≤ f → Leaves (length ts) (parse_unary c o f ts)
    primary_ends : 5 * length ts + 1 ≤ f → Leaves (length ts) (parse_primary c o f ts)

  module _ (f : ℕ) (ends : (ts : List Token) → Ends f ts) where
    or_loop_step :
        (n : ℕ) (v : Bool) (rest : List Token)
        → 5 * n + 1 ≤ f
        → length rest ≤ n
        → Leaves n (or_loop c o f v rest)
    or_loop_step n v rest h le =
        weaken-Leaves _ _ (or_loop c o f v rest) le ((ends rest).or_loop_ends v (omega arith))

    and_loop_step :
        (n : ℕ) (v : Bool) (rest : List Token)
        → 5 * n + 1 ≤ f
        → length rest ≤ n
        → Leaves n (and_loop c o f v rest)
    and_loop_step n v rest h le =
        weaken-Leaves _ _ (and_loop c o f v rest) le ((ends rest).and_loop_ends v (omega arith))

    or-Leaves :
        (ts : List Token) → 5 * length ts + 4 ≤ suc f → Leaves (length ts) (parse_or c o (suc f) ts)
    unfolding parse_or
    or-Leaves ts h =
        bind-Leaves (length ts) (length ts) (parse_and c o f ts) (or_loop c o f)
          ((ends ts).and_ends (omega arith))
          (λ v rest. or_loop_step (length ts) v rest (omega arith))

    and-Leaves :
        (ts : List Token)
        → 5 * length ts + 3 ≤ suc f
        → Leaves (length ts) (parse_and c o (suc f) ts)
    unfolding parse_and
    and-Leaves ts h =
        bind-Leaves (length ts) (length ts) (parse_unary c o f ts) (and_loop c o f)
          ((ends ts).unary_ends (omega arith))
          (λ v rest. and_loop_step (length ts) v rest (omega arith))

    or_loop-Leaves :
        (v : Bool) (ts : List Token)
        → 5 * length ts + 1 ≤ suc f
        → Leaves (length ts) (or_loop c o (suc f) v ts)
    unfolding or_loop
    or_loop-Leaves v [] h = omega arith
    or_loop-Leaves v (t ∷ ts) h =
        if-Leaves _ (is_keyword (codes "or") t) _ _
          (λ _.
            bind-Leaves (length ts) _ (parse_and c o f ts) _ ((ends ts).and_ends (omega arith))
              (λ w rest le.
                weaken-Leaves _ _ (or_loop c o f (v || w) rest) (omega arith)
                  (or_loop_step (length ts) (v || w) rest (omega arith) le)))
          (λ _. omega arith)

    and_loop-Leaves :
        (v : Bool) (ts : List Token)
        → 5 * length ts + 1 ≤ suc f
        → Leaves (length ts) (and_loop c o (suc f) v ts)
    unfolding and_loop
    and_loop-Leaves v [] h = omega arith
    and_loop-Leaves v (t ∷ ts) h =
        if-Leaves _ (is_keyword (codes "and") t) _ _
          (λ _.
            bind-Leaves (length ts) _ (parse_unary c o f ts) _ ((ends ts).unary_ends (omega arith))
              (λ w rest le.
                weaken-Leaves _ _ (and_loop c o f (v && w) rest) (omega arith)
                  (and_loop_step (length ts) (v && w) rest (omega arith) le)))
          (λ _. omega arith)

    unary-Leaves :
        (ts : List Token)
        → 5 * length ts + 2 ≤ suc f
        → Leaves (length ts) (parse_unary c o (suc f) ts)
    unfolding parse_unary
    unary-Leaves [] h = (ends []).primary_ends (omega arith)
    unary-Leaves (t ∷ ts) h =
        if-Leaves _ (is_keyword (codes "not") t) _ _
          (λ _. map-Leaves _ (parse_unary c o f ts) not (
            weaken-Leaves (length ts) _ (parse_unary c o f ts) (omega arith)
              ((ends ts).unary_ends (omega arith))))
          (λ _. (ends (t ∷ ts)).primary_ends (omega arith))

    primary-Leaves :
        (ts : List Token)
        → 5 * length ts + 1 ≤ suc f
        → Leaves (length ts) (parse_primary c o (suc f) ts)
    unfolding parse_primary
    primary-Leaves (lparen ∷ ts) h =
        bind-Leaves (length ts) _ (parse_or c o f ts) (closing c o)
          ((ends ts).or_ends (omega arith))
          (λ v rest le.
            weaken-Leaves _ _ (closing c o v rest) (omega arith) (closing-Leaves c o v rest))
    primary-Leaves [] h = parse_comparison-Leaves c o []
    primary-Leaves (t ∷ ts) h = parse_comparison-Leaves c o (t ∷ ts)

  levels-Ends : (f : ℕ) (ts : List Token) → Ends f ts
  levels-Ends zero ts = record {
    or_ends = λ h. absurd (omega arith);
    or_loop_ends = λ v h. absurd (omega arith);
    and_ends = λ h. absurd (omega arith);
    and_loop_ends = λ v h. absurd (omega arith);
    unary_ends = λ h. absurd (omega arith);
    primary_ends = λ h. absurd (omega arith);
  }
  levels-Ends (suc f) ts =
      let ends = levels-Ends f in
      record {
        or_ends = or-Leaves f ends ts;
        or_loop_ends = λ v. or_loop-Leaves f ends v ts;
        and_ends = and-Leaves f ends ts;
        and_loop_ends = λ v. and_loop-Leaves f ends v ts;
        unary_ends = unary-Leaves f ends ts;
        primary_ends = primary-Leaves f ends ts;
      }

  finish-fuel :
      (n : ℕ) (m : Result Error (Bool × List Token)) → Leaves n m → finish c o m ≢ err out_of_fuel
  unfolding finish
  finish-fuel n (ok (v, [])) h e = cc
  finish-fuel n (ok (v, eof ∷ _)) h e = cc
  finish-fuel n (ok (v, _ ∷ _)) h e = cc
  finish-fuel n (err x) h e = h cc

  -- The parser comes to an end on every list of tokens.
  pub parse_ends : (ts : List Token) → parse c o ts ≢ err out_of_fuel
  unfolding parse
  parse_ends ts =
      let f = 5 * length ts + 5 in
      finish-fuel (length ts) (parse_or c o f ts) ((levels-Ends f ts).or_ends (omega arith))
