-- ===== src/Registry.antt =====
-- internal/core/module/registry.go: the modules, the order of their dependencies and their lifecycle.
pub mod Names
pub mod Order
mod Edges
mod Kahn
pub mod Sorted
pub mod Acyclic
pub mod Rollback
pub mod Registered
mod Tests
pub mod Lifecycle
use mocktrue.Base.{
  ℕ, List, [], ◌∷◌, ◌++◌, Bool, Option, none, some, Text, text_eq, Result, ok, err, if◌then◌else◌,
}

-- What the registry asks of a module: its ID and the dependencies of its manifest.
pub record Module : Type 0 where
  pub id : Text
  pub dependencies : List Text

pub data Error : Type 0 where
  empty_id already_registered missing_dependency circular out_of_fuel : Error

-- The map of the registry: its entries in the order in which they are visited, which Go leaves open.
abbrev pub Registry : Type 0
Registry = List Module

unfoldable pub lookup : Text → Registry → Option Module
lookup name [] = none
lookup name (m ∷ ms) = let rest = lookup name ms in if text_eq name m.id then some m else rest

unfoldable pub register : Module → Registry → Result Error Registry
register m ms =
    if text_eq m.id []
    then err empty_id
    else elim (lookup m.id ms) [ some _ ↦ err already_registered | none ↦ ok (m ∷ ms) ]
