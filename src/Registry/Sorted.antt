-- ===== src/Registry/Sorted.antt =====
-- `orderLocked` of internal/core/module/registry.go orders the modules by their dependencies.
use mocktrue.Base.{ℕ, suc, ◌+◌, ◌≡◌, ◌≢◌, refl, ap, List, [], ◌∷◌, true, ◌&&◌, not}
use mocktrue.Base.{
  Bool-cases, ◌==◌, inl, inr, Text, text_eq_refl, length, arith, if◌then◌else◌, ok, err,
}
use mocktrue.Registry.{Registry, circular, out_of_fuel}
use mocktrue.Registry.Order.{Graph, no_edges, add_modules, drain, ready, order_locked}
use mocktrue.Registry.Names.{member, pending, Distinct, names-cases, Distinct-le}
use mocktrue.Registry.Edges.{
  names, dependencies_of, IsGraph, When, When-ok, When-ends, When-bind, add_modules-IsGraph,
}
use mocktrue.Registry.Kahn.{IsSorted, Counted, Drained, drain-Drained}

member-ready :
    (f : Text → ℕ) (x : Text) (ids : List Text)
    → member x (ready f ids) ≡ (member x ids && (f x == 0))
unfolding ready
member-ready f x [] = refl
member-ready f x (y ∷ ids) = elim (names-cases x y) [
  | inl e ↦ rw e (ground (arith, member-ready f y ids, text_eq_refl y))
  | inr e ↦ ground (arith, member-ready f x ids, e)
]

ready-Distinct : (f : Text → ℕ) (ids : List Text) → Distinct ids → Distinct (ready f ids)
unfolding ready
ready-Distinct f [] h = tt
ready-Distinct f (y ∷ ids) (n, h) = elim (Bool-cases (f y == 0)) [
  | inl e ↦ rw e (ground (arith, member-ready f y ids, n), ready-Distinct f ids h)
  | inr e ↦ rw e (ready-Distinct f ids h)
]

pending_all : (ds : List Text) → pending [] ds ≡ length ds
pending_all [] = refl
pending_all (d ∷ ds) = omega (arith, pending_all ds)

pub length-names : (ms : Registry) → length (names ms) ≡ length ms
length-names [] = refl
length-names (m ∷ ms) = ap suc (length-names ms)

-- The IDs that a visit of the map meets.
pub record IsVisit (ms : Registry) (visit : List Text) : Type 0 where
  pub once : Distinct visit
  pub all : (x : Text) → member x visit ≡ member x (names ms)

-- Every module once, each behind its dependencies.
pub record Ordered (ms : Registry) (order : List Text) : Type 0 where
  pub sorted : IsSorted ms [] order
  pub distinct : Distinct order
  pub all : (x : Text) → member x order ≡ member x (names ms)

module _ (ms : Registry) (visit : List Text) (unique : Distinct (names ms))
    (v : IsVisit ms visit) where
  start-Counted : (g : Graph) → IsGraph ms g → Counted ms [] [] g.indegree (ready g.indegree visit)
  start-Counted g graph = record {
    counts = λ x. omega (arith, graph.degrees x, pending_all (dependencies_of x ms));
    seen_zero = λ x m. ground (arith, m, member-ready g.indegree x visit);
    zero_seen = λ x m z. ground (arith, m, z, member-ready g.indegree x visit, v.all x);
    distinct = ready-Distinct g.indegree visit v.once;
    known = λ x m. ground (arith, m, member-ready g.indegree x visit, v.all x);
  }

  pub drained :
      (g : Graph)
      → IsGraph ms g
      → (order : List Text) × (drain
            (length ms + 1)
            g.dependents
            g.indegree
            (ready g.indegree visit)
            []
          ≡ ok order)
        × Drained ms order
  drained g graph =
      drain-Drained ms g.dependents graph.edges (length ms + 1) g.indegree (ready g.indegree visit)
        [] (start-Counted g graph) tt (omega (arith, length-names ms))

  order_all :
      (order : List Text)
      → Drained ms order
      → length order ≡ length ms
      → (x : Text) → member x order ≡ member x (names ms)
  order_all order d e x = elim (Bool-cases (member x order)) [
    | inl m ↦ rw (m, d.known x m) refl
    | inr m ↦ elim (Bool-cases (member x (names ms))) [
      | inl n ↦ absurd (
          omega (
            arith,
            e,
            length-names ms,
            Distinct-le (x ∷ order) (names ms) (m, d.distinct) (within n),
          ))
      | inr n ↦ rw (m, n) refl
    ]
  ]
    where
      within :
          member x (names ms) ≡ true
          → (z : Text) → member z (x ∷ order) ≡ true
          → member z (names ms) ≡ true
      within n z h = elim (names-cases z x) [
        | inl q ↦ rw q n
        | inr q ↦ d.known z (ground (arith, h, q))
      ]

  counted_out :
      (order : List Text)
      → Drained ms order
      → When (Ordered ms) (if not (length order == length ms) then err circular else ok order)
  counted_out order d = elim (Bool-cases (length order == length ms)) [
    | inl e ↦
        rw (When, e)
          record {
            sorted = d.sorted;
            distinct = d.distinct;
            all = order_all order d (ground (arith, e));
          }
    | inr e ↦ rw (When, e) (λ q. cc)
  ]

  order_locked-When : When (Ordered ms) (order_locked ms visit)
  unfolding order_locked
  order_locked-When =
      When-bind (IsGraph ms) (Ordered ms) (add_modules ms ms no_edges) _
        (add_modules-IsGraph ms unique)
        λ g graph. let (order, e, d) = drained g graph in rw (When, e) (counted_out order d)

-- Where `orderLocked` gives an order, each module stands in it once, behind all of its dependencies,
-- and the order has the registered modules and no others; the IDs of the modules are distinct, and
-- the ranges over the maps may meet them in any order.
pub order_locked-Ordered :
    (ms : Registry) (visit order : List Text)
    → Distinct (names ms)
    → IsVisit ms visit
    → order_locked ms visit ≡ ok order
    → Ordered ms order
order_locked-Ordered ms visit order unique v e =
    When-ok (Ordered ms) (order_locked ms visit) order (order_locked-When ms visit unique v) e

-- The loop of `orderLocked` comes to an end: with a round for each module and one more the fuel is
-- never used up, whatever the dependencies are, cycles included.
pub order_locked_ends :
    (ms : Registry) (visit : List Text)
    → Distinct (names ms)
    → IsVisit ms visit
    → order_locked ms visit ≢ err out_of_fuel
order_locked_ends ms visit unique v =
    When-ends (Ordered ms) (order_locked ms visit) (order_locked-When ms visit unique v)
