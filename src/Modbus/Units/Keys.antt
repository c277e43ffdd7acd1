-- ===== src/Modbus/Units/Keys.antt =====
-- The maps of simulated units of modbus/session.go: their keys, and the unit that is selected.
use mocktrue.Base.{ℕ, zero, suc, ◌≤◌, ◌≡◌, ◌⊎◌, inl, inr, refl, ◌==◌, arith}
use mocktrue.Base.{false, Bool-cases, none, some, Option-cases, List, [], ◌∷◌}
use mocktrue.Base.{Result, ok, err}
use mocktrue.Modbus.DataModel.{DataModel}
use mocktrue.Modbus.Session.{Units, put_unit}
use mocktrue.Modbus.Units.{
  Error, no_unit, no_units, is_unit_id, unit_ids_from, sorted_unit_ids, first_of, collect_units,
  or_single, normalize_slave_units, drop_unit,
}

abbrev pub AreUnits : Units → Type 0
AreUnits units = (u : ℕ) → (units u ≡ none) ⊎ ((1 ≤ u) × (u ≤ 247))

abbrev pub IsSelected : ℕ → Units → Type 0
IsSelected u units = (u ≡ 0) ⊎ ((m : DataModel) × (units u ≡ some m))

pub put_unit-AreUnits :
    (units : Units) (u : ℕ) (m : DataModel)
    → AreUnits units
    → 1 ≤ u
    → u ≤ 247
    → AreUnits (put_unit units u m)
put_unit-AreUnits units u m a lo hi v = elim (Bool-cases (v == u)) [
  | inl e ↦ inr (ground arith)
  | inr n ↦ rw n (a v)
]

pub put_unit-at : (units : Units) (u : ℕ) (m : DataModel) → put_unit units u m u ≡ some m
put_unit-at units u m = ground arith

pub drop_unit-AreUnits : (units : Units) (u : ℕ) → AreUnits units → AreUnits (drop_unit units u)
drop_unit-AreUnits units u a v = elim (Bool-cases (v == u)) [
  | inl e ↦ rw e (inl refl)
  | inr n ↦ rw n (a v)
]

pub put_unit-IsSelected :
    (units : Units) (u v : ℕ) (m : DataModel)
    → IsSelected v units
    → IsSelected v (put_unit units u m)
put_unit-IsSelected units u v m sel = elim (Bool-cases (v == u)) [
  | inl e ↦ rw e (inr (m, refl))
  | inr n ↦ rw n sel
]

pub drop_unit-IsSelected :
    (units : Units) (u v : ℕ)
    → (v == u) ≡ false
    → IsSelected v units
    → IsSelected v (drop_unit units u)
drop_unit-IsSelected units u v n sel = rw n sel

pub selected-IsUnit :
    (units : Units) (u : ℕ) (m : DataModel)
    → AreUnits units
    → units u ≡ some m
    → (1 ≤ u) × (u ≤ 247)
selected-IsUnit units u m a e = elim (a u) [ inl h ↦ absurd cc | inr b ↦ b ]

pub first_of-IsSelected :
    (n u : ℕ) (units : Units) → IsSelected (first_of (unit_ids_from n u units)) units
unfolding unit_ids_from first_of
first_of-IsSelected zero u units = inl refl
first_of-IsSelected (suc n) u units = elim (Option-cases (units u)) [
  | inl e ↦ rw (first_of, e) (first_of-IsSelected n (suc u) units)
  | inr (k, e) ↦ rw (first_of, e) (inr (k, e))
]

-- A result that the predicate holds of, or an error.
abbrev pub OnOk : {A : Type 0} → (A → Type 0) → Result Error A → Type 0
OnOk P (ok a) = P a
OnOk P (err e) = Unit

pub OnOk-ok : {A : Type 0} (P : A → Type 0) (m : Result Error A) (a : A) → OnOk P m → m ≡ ok a → P a
OnOk-ok P m a h e = rw e at h

collect_units-AreUnits :
    (source : List (ℕ × DataModel)) (units : Units)
    → AreUnits units
    → OnOk AreUnits (collect_units source units)
unfolding collect_units
collect_units-AreUnits [] units a = a
collect_units-AreUnits ((u, m) ∷ rest) units a = elim (Bool-cases (is_unit_id u)) [
  | inl e ↦
      rw (collect_units, e)
        (collect_units-AreUnits rest (put_unit units u m)
          (put_unit-AreUnits units u m a (ground arith) (ground arith)))
  | inr e ↦ rw (collect_units, e) tt
]

pub normalize_slave_units-AreUnits :
    (source : List (ℕ × DataModel)) (u : ℕ) (m : DataModel)
    → OnOk AreUnits (normalize_slave_units source u m)
unfolding normalize_slave_units
normalize_slave_units-AreUnits source u m =
    nonempty (collect_units (or_single source u m) no_unit)
      (collect_units-AreUnits (or_single source u m) no_unit (λ v. inl refl))
  where
    keys :
        (units : Units) (ids : List ℕ)
        → AreUnits units
        → OnOk AreUnits (elim ids [ [] ↦ err no_units | v ∷ vs ↦ ok units ])
    keys units [] a = tt
    keys units (v ∷ vs) a = a

    nonempty :
        (r : Result Error Units)
        → OnOk AreUnits r
        → OnOk AreUnits (elim r [
          | err e ↦ err e
          | ok units ↦ elim (sorted_unit_ids units) [ [] ↦ err no_units | v ∷ vs ↦ ok units ]
        ])
    nonempty (ok units) a = keys units (sorted_unit_ids units) a
    nonempty (err e) a = tt
