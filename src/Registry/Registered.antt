-- ===== src/Registry/Registered.antt =====
-- The registries that Register of internal/core/module/registry.go builds.
use mocktrue.Base.{◌≡◌, refl, [], ◌∷◌, false, Bool-cases, inl, inr}
use mocktrue.Base.{none, Option-cases, Text, text_eq, All, arith, ok}
use mocktrue.Registry.{Module, Registry, lookup, register}
use mocktrue.Registry.Names.{member, Distinct}
use mocktrue.Registry.Edges.{names, When, When-ok}

-- A registry as a sequence of calls leaves it; a call that fails leaves it as it was.
pub data Registered : Registry → Type 0 where
  empty : Registered []
  registered :
      (m : Module) (ms after : Registry)
      → Registered ms
      → register m ms ≡ ok after
      → Registered after

lookup-none : (x : Text) (ms : Registry) → lookup x ms ≡ none → member x (names ms) ≡ false
unfolding lookup
lookup-none x [] h = refl
lookup-none x (m ∷ ms) h = elim (Bool-cases (text_eq x m.id)) [
  | inl e ↦ absurd (ground (arith, e, h))
  | inr e ↦ rw e (lookup-none x ms (rw e at h))
]

abbrev HasIds : Registry → Type 0
HasIds ms = Distinct (names ms) × All (λ m. text_eq m.id [] ≡ false) ms

register-HasIds : (m : Module) (ms : Registry) → HasIds ms → When HasIds (register m ms)
unfolding register
register-HasIds m ms (d, a) = elim (Bool-cases (text_eq m.id [])) [
  | inl e ↦ rw (When, e) (λ q. cc)
  | inr e ↦ elim (Option-cases (lookup m.id ms)) [
    | inl l ↦ rw (When, e, l) ((lookup-none m.id ms l, d), (e, a))
    | inr (other, l) ↦ rw (When, e, l) (λ q. cc)
  ]
]

-- However modules are registered, every ID in the registry is there once and is not empty.
pub Registered-Distinct :
    (ms : Registry) → Registered ms → Distinct (names ms) × All (λ m. text_eq m.id [] ≡ false) ms
Registered-Distinct [] empty = (tt, tt)
Registered-Distinct after (registered m ms after' r e) =
    When-ok HasIds (register m ms) after (register-HasIds m ms (Registered-Distinct ms r)) e
