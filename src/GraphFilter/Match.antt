-- ===== src/GraphFilter/Match.antt =====
-- `matchSerialGraphFilter`: a candidate against a filter in one of the three modes.
use mocktrue.Base.{ℕ, zero, suc, ◌+◌, ◌-◌, ◌/◌, ◌%◌, ◌^◌, List, [], ◌∷◌, ◌++◌, Bool, true, Option}
use mocktrue.Base.{
  none, some, map, ◌==◌, ltb, ◌&&◌, ◌||◌, not, if◌then◌else◌, Text, codes, text_eq, to_lower,
}
use mocktrue.Base.{Result, ok, err, ◌>>=◌, or_err}
use mocktrue.GraphFilter.Candidate.{Candidate, Options, size, is_space, contains}
use mocktrue.GraphFilter.Token.{Error, tokenize, invalid_regex, unknown_mode}
use mocktrue.GraphFilter.Parser.{parse}

-- `strings.TrimSpace`
unfoldable pub trim_left : Text → Text
trim_left [] = []
trim_left (c ∷ cs) = let rest = trim_left cs in if is_space c then rest else c ∷ cs

unfoldable pub trim_right : Text → Text
trim_right [] = []
trim_right (c ∷ cs) =
    let rest = trim_right cs in if is_space c && text_eq rest [] then [] else c ∷ rest

unfoldable pub trim_space : Text → Text
trim_space s = trim_right (trim_left s)

-- The decimal digits of a number, before those of `behind`; a round of fuel for each.
unfoldable pub decimal : ℕ → ℕ → Text → Text
decimal zero n behind = behind
decimal (suc fuel) n behind =
    let digit = b'0' + n % 10 in
    let more = decimal fuel (n / 10) (digit ∷ behind) in
    if n / 10 == 0 then digit ∷ behind else more

-- `strconv.Itoa` of a number of 64 bits.
unfoldable pub itoa : ℕ → Text
unfolding decimal
itoa n = if ltb n (2 ^ 63) then decimal 20 n [] else b'-' ∷ decimal 20 (2 ^ 64 - n) []

-- `strings.Join` with line ends.
unfoldable pub join_lines : List Text → Text
join_lines [] = []
join_lines (s ∷ []) = s
join_lines (s ∷ ss) = s ++ (10 ∷ join_lines ss)

unfoldable pub filter_haystack : Candidate → Text
filter_haystack c = join_lines (
    c.text
    ∷ c.hex
    ∷ c.message
    ∷ c.level
    ∷ c.source
    ∷ c.graph_id
    ∷ c.node_id
    ∷ c.node_type
    ∷ c.direction
    ∷ c.payload_text
    ∷ c.payload_hex
    ∷ c.details
    ∷ c.action
    ∷ c.category
    ∷ itoa (size c)
    ∷ [])

unfoldable pub match_expression : Candidate → Options → Text → Result Error Bool
match_expression c o expression = tokenize expression >>= parse c o

-- `regexp.QuoteMeta`
unfoldable pub quote_meta : Text → Text
unfolding contains
quote_meta [] = []
quote_meta (c ∷ cs) =
    let rest = quote_meta cs in
    if contains (codes "\\.+*?()|[]{}^$") (c ∷ []) then 92 ∷ c ∷ rest else c ∷ rest

-- `compile` is `regexp.Compile`, which gives the test of a pattern that is well formed.
module _ (compile : Text → Option (Text → Bool)) where
  -- `MustCompile` panics on a pattern that does not compile: no result.
  unfoldable pub match_plain : Candidate → Text → Options → Option Bool
  match_plain c expression o =
      let fold = λ (s : Text). if not o.case_sensitive then map to_lower s else s in
      let haystack = fold (filter_haystack c) in
      let needle = fold expression in
      if not o.whole_word
      then some (contains haystack needle)
      else elim (compile (codes "\\b" ++ quote_meta needle ++ codes "\\b")) [
        | some test ↦ some (test haystack)
        | none ↦ none
      ]

  unfoldable pub match_regex : Candidate → Text → Options → Result Error Bool
  match_regex c expression o =
      let worded =
        if o.whole_word then codes "\\b(?:" ++ expression ++ codes ")\\b" else expression in
      let pattern = if not o.case_sensitive then codes "(?i:" ++ worded ++ codes ")" else worded in
      or_err (compile pattern) invalid_regex >>= λ test. ok (test (filter_haystack c))

  -- No result where the code panics.
  unfoldable pub match_filter : Candidate → Options → Option (Result Error Bool)
  match_filter c o =
      let expression = trim_space o.expression in
      let mode = map to_lower (trim_space o.mode) in
      if text_eq expression []
      then some (ok true)
      else if text_eq mode [] || text_eq mode (codes "plain")
      then elim (match_plain c expression o) [ some matched ↦ some (ok matched) | none ↦ none ]
      else if text_eq mode (codes "regex")
      then some (match_regex c expression o)
      else if text_eq mode (codes "expression")
      then some (match_expression c o expression)
      else some (err unknown_mode)
