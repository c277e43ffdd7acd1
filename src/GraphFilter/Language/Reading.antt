-- ===== src/GraphFilter/Language/Reading.antt =====
-- The parser of graph_filter.go on what the trees print.
use mocktrue.Base.{ℕ, suc, ◌+◌, ◌*◌, ◌≤◌, ◌≡◌, refl, List, [], ◌∷◌, ◌++◌}
use mocktrue.Base.{Bool, true, false, not, length, length-append, codes, ok, arith}
use mocktrue.GraphFilter.Candidate.{Candidate, Options}
use mocktrue.GraphFilter.Token.{Token, rparen, ident, eof}
use mocktrue.GraphFilter.Parser.{or_loop}
use mocktrue.GraphFilter.Parser.{finish, parse}
use mocktrue.GraphFilter.Language.{
  Expr, number_test, text_test, negate, both, either, eval, print, IsSized, weight,
}
use mocktrue.GraphFilter.Language.{Level, whole, under_or, under_and}
use mocktrue.GraphFilter.Language.Levels.{
  Unary, Conjunction, Disjunction, negated, Unary→Conjunction, Conjunction→Disjunction, conjoined,
  disjoined, bracketed, enough,
}
use mocktrue.GraphFilter.Language.{parens, is_under_and, is_whole}
use mocktrue.GraphFilter.Language.Fields.{number-Unary, text-Unary}

module _ (c : Candidate) (o : Options) where
  -- A tree is read at each level as what it says.
  abbrev AtLevels : Expr → Type 0
  AtLevels e =
      Unary c o (weight e) (print e under_and) (eval c o e)
      × Conjunction c o (weight e) (print e under_or) (eval c o e)
      × Disjunction c o (weight e) (print e whole) (eval c o e)

  lifted :
      (n k : ℕ) (ts : List Token) (v : Bool)
      → n + 3 ≤ k
      → Unary c o n ts v
      → Unary c o k ts v × Conjunction c o k ts v × Disjunction c o k ts v
  lifted n k ts v h u =
      let conj = Unary→Conjunction c o n ts v u in
      let disj = Conjunction→Disjunction c o (suc n) ts v conj in
      (
        λ rest f le. u rest f (omega arith),
        λ rest m r go f le. conj rest m r go f (omega arith),
        λ rest no_and m r go f le. disj rest no_and m r go f (omega arith),
      )

  print-AtLevels : (e : Expr) → IsSized e → AtLevels e
  print-AtLevels (number_test field r n) h =
      let e = number_test field r n in
      lifted 2 5 (print e under_and) (eval c o e) (omega arith) (number-Unary c o field r n h)
  print-AtLevels (text_test field r value) h =
      let e = text_test field r value in
      lifted 2 5 (print e under_and) (eval c o e) (omega arith) (text-Unary c o field r value)
  print-AtLevels (negate e) h =
      let (u, _, _) = print-AtLevels e h in
      lifted (suc (weight e)) (weight e + 5) (print (negate e) under_and) (not (eval c o e))
        (omega arith) (negated c o (weight e) (print e under_and) (eval c o e) u)
  print-AtLevels (both a b) (ha, hb) =
      let (_, conj, _) = print-AtLevels a ha in
      let (u, _, _) = print-AtLevels b hb in
      let joined =
        conjoined c o (weight a) (weight b) (print a under_or) (print b under_and) (eval c o a)
          (eval c o b) conj u in
      let disj = Conjunction→Disjunction c o _ _ _ joined in
      let closed = bracketed c o _ _ _ disj in
      (
        λ rest f le. closed rest f (omega arith),
        λ rest m r go f le. joined rest m r go f (omega arith),
        λ rest no_and m r go f le. disj rest no_and m r go f (omega arith),
      )
  print-AtLevels (either a b) (ha, hb) =
      let (_, _, disj) = print-AtLevels a ha in
      let (_, conj, _) = print-AtLevels b hb in
      let joined =
        disjoined c o (weight a) (weight b) (print a whole) (print b under_or) (eval c o a)
          (eval c o b) disj conj in
      let (u, k, _) =
        lifted (weight a + weight b + 5) (weight a + weight b + 8) (print (either a b) under_and)
          (eval c o (either a b)) (omega arith)
          (λ rest f le. bracketed c o _ _ _ joined rest f (omega arith)) in
      (u, k, λ rest no_and m r go f le. joined rest no_and m r go f (omega arith))

  length-parens : (b : Bool) (ts : List Token) → length ts ≤ length (parens b ts)
  length-parens true ts = omega (arith, length-append ts (rparen ∷ []))
  length-parens false ts = omega arith

  length-print : (e : Expr) (l : Level) → weight e + 10 ≤ 5 * length (print e l)
  length-print (number_test field r n) l = (omega arith)
  length-print (text_test field r n) l = (omega arith)
  length-print (negate e) l = omega (arith, length-print e under_and)
  length-print (both a b) l = omega (
    arith,
    length-parens (is_under_and l) (print a under_or ++ (ident (codes "and") ∷ print b under_and)),
    length-append (print a under_or) (ident (codes "and") ∷ print b under_and),
    length-print a under_or,
    length-print b under_and,
  )
  length-print (either a b) l = omega (
    arith,
    length-parens (not (is_whole l)) (print a whole ++ (ident (codes "or") ∷ print b under_or)),
    length-append (print a whole) (ident (codes "or") ∷ print b under_or),
    length-print a whole,
    length-print b under_or,
  )

  -- A printed tree parses to what it says of the candidate.
  pub parse-print :
      (e : Expr) → IsSized e → parse c o (print e whole ++ (eof ∷ [])) ≡ ok (eval c o e)
  unfolding parse finish or_loop
  parse-print e h =
      let (_, _, disj) = print-AtLevels e h in
      rw
        (disj (eof ∷ []) refl 1 _ (enough _ λ g le. refl)
          (5 * length (print e whole ++ (eof ∷ [])) + 5)
          (omega (arith, length-print e whole, length-append (print e whole) (eof ∷ []))))
        refl
