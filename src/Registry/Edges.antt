-- ===== src/Registry/Edges.antt =====
-- The graph that `orderLocked` of internal/core/module/registry.go builds from the manifests.
use mocktrue.Base.{◌+◌, ◌≡◌, ◌≢◌, refl, ap, List, [], ◌∷◌, ◌++◌, false}
use mocktrue.Base.{
  Bool-cases, Option-cases, inl, inr, Text, text_eq, text_eq_refl, length, arith, if◌then◌else◌,
  Result, ok, err, ◌>>=◌,
}
use mocktrue.Registry.{Module, Registry, lookup, Error, out_of_fuel}
use mocktrue.Registry.Order.{Graph, no_edges, put, add_edges, add_modules}
use mocktrue.Registry.Names.{member, count, Distinct, names-cases}

abbrev pub names : List Module → List Text
names [] = []
names (m ∷ ms) = m.id ∷ names ms

-- The dependencies of a module, none of a name that is not registered.
abbrev pub dependencies_of : Text → List Module → List Text
dependencies_of x [] = []
dependencies_of x (m ∷ ms) = if text_eq x m.id then m.dependencies else dependencies_of x ms

pub put_self : {A : Type 0} (m : Text → A) (x : Text) (v : A) → put m x v x ≡ v
put_self m x v = rw (text_eq_refl x) refl

count-append :
    (x : Text) (xs : List Text) (y : Text)
    → count x (xs ++ (y ∷ [])) ≡ count x xs + (if text_eq x y then 1 else 0)
count-append x [] y = ground arith
count-append x (z ∷ xs) y = ground (arith, count-append x xs y)

-- What the edges of one module add.
record Added (id : Text) (deps : List Text) (before after : Graph) : Type 0 where
  own : after.indegree id ≡ before.indegree id + length deps
  others : (x : Text) → text_eq x id ≡ false → after.indegree x ≡ before.indegree x
  edges :
      (d x : Text)
      → count x (after.dependents d)
        ≡ count x (before.dependents d) + (if text_eq x id then count d deps else 0)

-- A result that the predicate holds of, or an error other than that of the fuel.
abbrev pub When : {A : Type 0} → (A → Type 0) → Result Error A → Type 0
When P (ok a) = P a
When P (err e) = e ≢ out_of_fuel

pub When-ok : {A : Type 0} (P : A → Type 0) (m : Result Error A) (a : A) → When P m → m ≡ ok a → P a
When-ok P m a h e = rw e at h

pub When-ends : {A : Type 0} (P : A → Type 0) (m : Result Error A) → When P m → m ≢ err out_of_fuel
When-ends P (ok a) h e = absurd cc
When-ends P (err x) h e = h cc

pub When-bind :
    {A B : Type 0} (P : A → Type 0) (Q : B → Type 0) (m : Result Error A) (k : A → Result Error B)
    → When P m
    → ((a : A) → P a → When Q (k a))
    → When Q (m >>= k)
When-bind P Q (ok a) k h f = f a h
When-bind P Q (err e) k h f = h

pub When-map :
    {A : Type 0} (P Q : A → Type 0) (m : Result Error A)
    → When P m
    → ((a : A) → P a → Q a)
    → When Q m
When-map P Q (ok a) h f = f a h
When-map P Q (err e) h f = h

more_edge :
    (id dep : Text) (deps : List Text) (g h : Graph)
    → Added id deps
        record {
          indegree = put g.indegree id (g.indegree id + 1);
          dependents = put g.dependents dep (g.dependents dep ++ (id ∷ []));
        }
        h
    → Added id (dep ∷ deps) g h
more_edge id dep deps g h added = record {
  own = ground (arith, added.own, put_self g.indegree id (g.indegree id + 1));
  others = λ x n. ground (arith, added.others x n, n);
  edges = λ d x.
      ground (arith, added.edges d x, count-append x (g.dependents dep) id, names-cases d dep);
}

add_edges-Added :
    (ms : Registry) (id : Text) (deps : List Text) (g : Graph)
    → When (Added id deps g) (add_edges ms id deps g)
unfolding add_edges
add_edges-Added ms id [] g = record {
  own = omega arith;
  others = λ x n. refl;
  edges = λ d x. ground arith;
}
add_edges-Added ms id (dep ∷ deps) g = elim (Option-cases (lookup dep ms)) [
  | inl n ↦ rw (When, n) (λ e. cc)
  | inr (m, l) ↦
      rw (When, l)
        (When-map _ _ (add_edges ms id deps _) (add_edges-Added ms id deps _)
          (more_edge id dep deps g))
]

-- What the modules add: the in-degree of each is the number of its dependencies.
record Built (rest : List Module) (before after : Graph) : Type 0 where
  degrees :
      (x : Text)
      → after.indegree x
        ≡ (if member x (names rest) then length (dependencies_of x rest) else before.indegree x)
  edges :
      (d x : Text)
      → count x (after.dependents d)
        ≡ count x (before.dependents d) + count d (dependencies_of x rest)

pub unlisted :
    (x : Text) (ms : List Module) → member x (names ms) ≡ false → dependencies_of x ms ≡ []
unlisted x [] h = refl
unlisted x (m ∷ ms) h = ground (arith, h, unlisted x ms)

first_module :
    (m : Module) (rest : List Module) (g g' : Graph)
    → member m.id (names rest) ≡ false
    → Added m.id m.dependencies
        record { indegree = put g.indegree m.id 0; dependents = g.dependents }
        g'
    → (g'' : Graph) → Built rest g' g''
    → Built (m ∷ rest) g g''
first_module m rest g g' n added g'' built = record {
  degrees = λ x. elim (names-cases x m.id) [
    | inl e ↦ rw e (
        ground
          (arith, built.degrees m.id, n, added.own, put_self g.indegree m.id 0, text_eq_refl m.id))
    | inr e ↦ ground (arith, built.degrees x, e, added.others x e)
  ];
  edges = λ d x. elim (names-cases x m.id) [
    | inl e ↦ rw e (
        ground (
          arith,
          built.edges d m.id,
          n,
          added.edges d m.id,
          text_eq_refl m.id,
          ap (count d) (unlisted m.id rest n),
        ))
    | inr e ↦ ground (arith, built.edges d x, e, added.edges d x)
  ];
}

add_modules-Built :
    (ms : Registry) (rest : List Module) (g : Graph)
    → Distinct (names rest)
    → When (Built rest g) (add_modules ms rest g)
unfolding add_modules
add_modules-Built ms [] g h = record { degrees = λ x. refl; edges = λ d x. omega arith }
add_modules-Built ms (m ∷ rest) g (n, h) =
    When-bind _ _ _ (add_modules ms rest) (add_edges-Added ms m.id m.dependencies _) λ g' added.
      When-map (Built rest g') (Built (m ∷ rest) g) (add_modules ms rest g')
        (add_modules-Built ms rest g' h) (first_module m rest g g' n added)

-- The graph of all modules.
pub record IsGraph (ms : Registry) (g : Graph) : Type 0 where
  pub degrees : (x : Text) → g.indegree x ≡ length (dependencies_of x ms)
  pub edges : (d x : Text) → count x (g.dependents d) ≡ count d (dependencies_of x ms)

pub add_modules-IsGraph :
    (ms : Registry) → Distinct (names ms) → When (IsGraph ms) (add_modules ms ms no_edges)
add_modules-IsGraph ms h =
    When-map (Built ms no_edges) (IsGraph ms) (add_modules ms ms no_edges)
      (add_modules-Built ms ms no_edges h)
      λ g built. record {
        degrees = λ x. elim (Bool-cases (member x (names ms))) [
          | inl e ↦ ground (arith, built.degrees x, e)
          | inr e ↦ ground (arith, built.degrees x, e, ap length (unlisted x ms e))
        ];
        edges = λ d x. omega (arith, built.edges d x);
      }
