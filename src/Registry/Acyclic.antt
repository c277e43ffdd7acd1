-- ===== src/Registry/Acyclic.antt =====
-- `orderLocked` of internal/core/module/registry.go finds an order where there is one.
use mocktrue.Base.{ℕ, zero, suc, ◌+◌, ◌<◌, ◌≡◌, refl, List, [], ◌∷◌, ◌++◌, true}
use mocktrue.Base.{Bool-cases, ◌==◌, inl, inr, some, Text, text_eq_refl, length, All, arith, ok}
use mocktrue.Registry.{Module, Registry, lookup}
use mocktrue.Registry.Order.{Graph, no_edges, put, add_edges, add_modules, order_locked}
use mocktrue.Registry.Names.{member, pending, Distinct, names-cases, Distinct-le, pending_some}
use mocktrue.Registry.Edges.{names, dependencies_of, IsGraph, When-ok, add_modules-IsGraph}
use mocktrue.Registry.Kahn.{Drained}
use mocktrue.Registry.Sorted.{IsVisit, drained, length-names}

All-member {κ} :
    (P : Text → Type κ) (xs : List Text) (x : Text) → All P xs → member x xs ≡ true → P x
All-member P [] x h m = absurd cc
All-member P (y ∷ xs) x (p, h) m = elim (names-cases x y) [
  | inl e ↦ rw e p
  | inr e ↦ All-member P xs x h (ground (arith, m, e))
]

lookup_known :
    (x : Text) (ms : Registry) → member x (names ms) ≡ true → (m : Module) × (lookup x ms ≡ some m)
unfolding lookup
lookup_known x [] h = absurd cc
lookup_known x (m ∷ ms) h = elim (names-cases x m.id) [
  | inl e ↦ (m, ground (arith, e, text_eq_refl x))
  | inr e ↦ let (n, l) = lookup_known x ms (ground (arith, h, e)) in (n, rw (e, l) refl)
]

add_edges_known :
    (ms : Registry) (id : Text) (deps : List Text) (g : Graph)
    → All (λ d. member d (names ms) ≡ true) deps
    → (h : Graph) × (add_edges ms id deps g ≡ ok h)
unfolding add_edges
add_edges_known ms id [] g k = (g, refl)
add_edges_known ms id (dep ∷ deps) g (k, ks) =
    let (m, l) = lookup_known dep ms k in
    let next : Graph = record {
      indegree = put g.indegree id (g.indegree id + 1);
      dependents = put g.dependents dep (g.dependents dep ++ (id ∷ []));
    } in
    let (h, e) = add_edges_known ms id deps next ks in (h, rw (add_edges, l) e)

add_modules_known :
    (ms rest : List Module) (g : Graph)
    → All (λ m. All (λ d. member d (names ms) ≡ true) m.dependencies) rest
    → (h : Graph) × (add_modules ms rest g ≡ ok h)
unfolding add_modules
add_modules_known ms [] g k = (g, refl)
add_modules_known ms (m ∷ rest) g (k, ks) =
    let cleared : Graph = record { indegree = put g.indegree m.id 0; dependents = g.dependents } in
    let (g', e) = add_edges_known ms m.id m.dependencies cleared k in
    let (h, e') = add_modules_known ms rest g' ks in (h, rw (add_modules, e) e')

-- Every dependency is registered and of a lower rank.
pub record IsAcyclic (ms : Registry) (rank : Text → ℕ) : Type 0 where
  pub registered : All (λ m. All (λ d. member d (names ms) ≡ true) m.dependencies) ms
  pub lower : All (λ m. All (λ d. rank d < rank m.id) m.dependencies) ms

-- What holds of the dependencies in every manifest holds of those of a name.
of_name {κ} :
    (P : Text → Text → Type κ) (ms : List Module) (x : Text)
    → All (λ m. All (P m.id) m.dependencies) ms
    → All (P x) (dependencies_of x ms)
of_name P [] x h = tt
of_name P (m ∷ ms) x (h, hs) = elim (names-cases x m.id) [
  | inl e ↦ rw (e, text_eq_refl m.id) h
  | inr e ↦ rw e (of_name P ms x hs)
]

module _ (ms : Registry) (rank : Text → ℕ) (acyclic : IsAcyclic ms rank) (order : List Text)
    (d : Drained ms order) where
  reached :
      (bound : ℕ) (x : Text) → rank x < bound → member x (names ms) ≡ true → member x order ≡ true
  reached zero x h m = absurd (omega arith)
  reached (suc bound) x h m = elim (Bool-cases (pending order (dependencies_of x ms) == 0)) [
    | inl z ↦ d.closed x m (ground (arith, z))
    | inr z ↦
        let (y, inside, out) =
          pending_some order (dependencies_of x ms) (λ e. ground (arith, z, e)) in
        let real =
          All-member _ (dependencies_of x ms) y
            (of_name (λ _ e. member e (names ms) ≡ true) ms x acyclic.registered) inside in
        let below =
          All-member (λ e. rank e < rank x) (dependencies_of x ms) y
            (of_name (λ n e. rank e < rank n) ms x acyclic.lower) inside in
        absurd (ground (arith, out, reached bound y (omega (arith, below, h)) real))
  ]

  full : Distinct (names ms) → length order ≡ length ms
  full unique =
      let all =
        Distinct-le (names ms) order unique (λ x m. reached (suc (rank x)) x (omega arith) m) in
      omega (arith, all, length-names ms, Distinct-le order (names ms) d.distinct d.known)

-- Where every dependency is registered and no module depends on itself through others, which is to
-- say that the modules have ranks above those of their dependencies, `orderLocked` gives an order.
pub order_locked_acyclic :
    (ms : Registry) (visit : List Text) (rank : Text → ℕ)
    → Distinct (names ms)
    → IsVisit ms visit
    → IsAcyclic ms rank
    → (order : List Text) × (order_locked ms visit ≡ ok order)
unfolding order_locked
order_locked_acyclic ms visit rank unique v acyclic =
    let (g, e) = add_modules_known ms ms no_edges acyclic.registered in
    let graph : IsGraph ms g =
      When-ok (IsGraph ms) (add_modules ms ms no_edges) g (add_modules-IsGraph ms unique) e in
    let (order, q, d) = drained ms visit unique v g graph in
    (order, rw (e, q) (ground (arith, full ms rank acyclic order d unique)))
