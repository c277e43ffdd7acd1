-- ===== src/Registry/Order.antt =====
-- `orderLocked`: Kahn's algorithm on the dependencies of the registered modules.
use mocktrue.Base.{ℕ, zero, suc, ◌+◌, ◌-◌, List, [], ◌∷◌, ◌++◌, none, some, Text, text_eq}
use mocktrue.Base.{◌==◌, not, length, Result, ok, err, ◌>>=◌, if◌then◌else◌}
use mocktrue.Registry.{Module, Registry, lookup, Error, missing_dependency, circular, out_of_fuel}

-- A map of Go: a missing key has the zero value.
abbrev pub put : {A : Type 0} → (Text → A) → Text → A → Text → A
put m key v x = if text_eq x key then v else m x

pub record Graph : Type 0 where
  pub indegree : Text → ℕ
  pub dependents : Text → List Text

-- The two maps as they are made.
abbrev pub no_edges : Graph
no_edges = record { indegree = λ _. 0; dependents = λ _. [] }

-- `for _, dep := range m.Manifest().Dependencies`
unfoldable pub add_edges : Registry → Text → List Text → Graph → Result Error Graph
add_edges ms id [] g = ok g
add_edges ms id (dep ∷ deps) g =
    let more = add_edges ms id deps record {
      indegree = put g.indegree id (g.indegree id + 1);
      dependents = put g.dependents dep (g.dependents dep ++ (id ∷ []));
    } in
    elim (lookup dep ms) [ none ↦ err missing_dependency | some _ ↦ more ]

-- `for id, m := range r.modules`
unfoldable pub add_modules : Registry → List Module → Graph → Result Error Graph
add_modules ms [] g = ok g
add_modules ms (m ∷ rest) g =
    add_edges ms m.id m.dependencies
      record { indegree = put g.indegree m.id 0; dependents = g.dependents }
    >>= add_modules ms rest

-- The IDs without a dependency, in the order of a visit of the map.
unfoldable pub ready : (Text → ℕ) → List Text → List Text
ready indegree [] = []
ready indegree (id ∷ ids) =
    let rest = ready indegree ids in if indegree id == 0 then id ∷ rest else rest

-- `for _, dep := range dependents[id]`; an in-degree is positive where it is taken down.
unfoldable pub release : List Text → (Text → ℕ) → List Text → (Text → ℕ) × List Text
release [] indegree queue = (indegree, queue)
release (dep ∷ deps) indegree queue =
    let lower = put indegree dep (indegree dep - 1) in
    release deps lower (if lower dep == 0 then queue ++ (dep ∷ []) else queue)

unfoldable pub drain :
    ℕ → (Text → List Text) → (Text → ℕ) → List Text → List Text → Result Error (List Text)
drain zero dependents indegree queue order = err out_of_fuel
drain (suc fuel) dependents indegree [] order = ok order
drain (suc fuel) dependents indegree (id ∷ queue) order =
    let (lower, longer) = release (dependents id) indegree queue in
    drain fuel dependents lower longer (order ++ (id ∷ []))

-- `visit` is the order in which `range indegree` meets the IDs.
unfoldable pub order_locked : Registry → List Text → Result Error (List Text)
order_locked ms visit = add_modules ms ms no_edges >>= λ g.
    drain (length ms + 1) g.dependents g.indegree (ready g.indegree visit) [] >>= λ order.
    if not (length order == length ms) then err circular else ok order
