-- ===== src/Modbus/Units/Selection.antt =====
-- Which unit a slave session of modbus/session.go selects, and the data model that it keeps of it.
use mocktrue.Base.{ℕ, ◌≤◌, ◌≡◌, ◌⊎◌, inl, inr, refl, ◌==◌, arith}
use mocktrue.Base.{Bool, false, Bool-cases, some, List}
use mocktrue.Base.{ok, Result-cases, not, ◌||◌}
use mocktrue.Modbus.DataModel.{DataModel}
use mocktrue.Modbus.Slave.{serve}
use mocktrue.Modbus.Frame.{DecodedFrame}
use mocktrue.Modbus.Units.{
  SlaveSession, running_session, new_session, is_closed, is_unit_id, normalize_slave_units,
  start_slave, stop_slave, close_port, set_error, set_data_model, set_unit_data_model,
  add_slave_unit, drop_unit, remove_slave_unit, update_slave_unit_data,
}
use mocktrue.Modbus.Units.Keys.{
  AreUnits, IsSelected, OnOk, OnOk-ok, put_unit-AreUnits, put_unit-at, drop_unit-AreUnits,
  put_unit-IsSelected, drop_unit-IsSelected, selected-IsUnit, first_of-IsSelected,
  normalize_slave_units-AreUnits,
}

-- A session as its operations leave it. `close` is `stop_slave` and then `close_port`, with any other
-- steps between them. A round of the slave loop looks its unit up in a session
-- `before`, and stores the model that the request leaves when others may have changed the session.
pub data Reached : SlaveSession → Type 0 where
  opened : Reached new_session
  started :
      (source : List (ℕ × DataModel)) (u : ℕ) (m : DataModel) (s s' : SlaveSession)
      → Reached s
      → start_slave source u m s ≡ ok s'
      → Reached s'
  stopped : (s : SlaveSession) → Reached s → Reached (stop_slave s)
  port_closed : (b : Bool) (s : SlaveSession) → Reached s → Reached (close_port b s)
  failed : (s : SlaveSession) → Reached s → Reached (set_error s)
  updated : (m : DataModel) (s : SlaveSession) → Reached s → Reached (set_data_model m s)
  answered :
      (d : DecodedFrame) (m : DataModel) (before s : SlaveSession)
      → Reached before
      → before.units d.unit ≡ some m
      → Reached s
      → Reached (set_unit_data_model d.unit (serve d.pdu m).1 s)
  added :
      (u : ℕ) (m : DataModel) (s s' : SlaveSession)
      → Reached s
      → add_slave_unit u m s ≡ ok s'
      → Reached s'
  removed : (u : ℕ) (s s' : SlaveSession) → Reached s → remove_slave_unit u s ≡ ok s' → Reached s'
  unit_updated :
      (u : ℕ) (m : DataModel) (s s' : SlaveSession)
      → Reached s
      → update_slave_unit_data u m s ≡ ok s'
      → Reached s'

abbrev pub IsRunning : SlaveSession → Type 0
IsRunning s = (s.slave_running ≡ false) ⊎ ((s.status ≡ running_session) ⊎ (s.port_open ≡ false))

abbrev pub IsConsistent : SlaveSession → Type 0
IsConsistent s = AreUnits s.units × IsSelected s.unit s.units × IsRunning s

start_slave-IsConsistent :
    (source : List (ℕ × DataModel)) (u : ℕ) (m : DataModel) (s : SlaveSession)
    → OnOk IsConsistent (start_slave source u m s)
unfolding start_slave
start_slave-IsConsistent source u m s = elim (Result-cases (normalize_slave_units source u m)) [
  | inr (e, r) ↦ rw (start_slave, r) tt
  | inl (units, r) ↦
      let a : AreUnits units =
        OnOk-ok AreUnits (normalize_slave_units source u m) units
          (normalize_slave_units-AreUnits source u m) r in
      elim (Bool-cases (not s.port_open || is_closed s.status)) [
        | inl c ↦ rw (start_slave, r, c) tt
        | inr o ↦ elim (Bool-cases s.slave_running) [
          | inl c ↦ rw (start_slave, r, o, c) tt
          | inr n ↦ rw (start_slave, r, o, n) (a, first_of-IsSelected 256 0 units, inr (inl refl))
        ]
      ]
]

stop_slave-IsConsistent : (s : SlaveSession) → IsConsistent s → IsConsistent (stop_slave s)
unfolding stop_slave
stop_slave-IsConsistent s (a, sel, r) = ground (arith, a, sel, r)

set_unit_data_model-IsConsistent :
    (u : ℕ) (m : DataModel) (s : SlaveSession)
    → 1 ≤ u
    → u ≤ 247
    → IsConsistent s
    → IsConsistent (set_unit_data_model u m s)
unfolding set_unit_data_model
set_unit_data_model-IsConsistent u m s lo hi (a, sel, r) =
    (put_unit-AreUnits s.units u m a lo hi, put_unit-IsSelected s.units u s.unit m sel, r)

set_data_model-IsConsistent :
    (m : DataModel) (s : SlaveSession) → IsConsistent s → IsConsistent (set_data_model m s)
unfolding set_data_model
set_data_model-IsConsistent m s (a, sel, r) = elim (Bool-cases (s.unit == 0)) [
  | inl z ↦ rw z (put_unit-AreUnits s.units 1 m a (omega arith) (omega arith), inr (m, refl), r)
  | inr n ↦ elim sel [
    | inl z ↦ absurd (ground arith)
    | inr (k, e) ↦
        let b = selected-IsUnit s.units s.unit k a e in
        rw n
          (put_unit-AreUnits s.units s.unit m a b.0 b.1, inr (m, put_unit-at s.units s.unit m), r)
  ]
]

add_slave_unit-IsConsistent :
    (u : ℕ) (m : DataModel) (s : SlaveSession)
    → IsConsistent s
    → OnOk IsConsistent (add_slave_unit u m s)
unfolding add_slave_unit
add_slave_unit-IsConsistent u m s (a, sel, r) = elim (Bool-cases (is_unit_id u)) [
  | inr e ↦ rw (add_slave_unit, e) tt
  | inl e ↦
      let all = put_unit-AreUnits s.units u m a (ground arith) (ground arith) in
      elim (Bool-cases (s.unit == 0)) [
        | inl z ↦ rw (add_slave_unit, e, z) (all, inr (m, put_unit-at s.units u m), r)
        | inr n ↦ rw (add_slave_unit, e, n) (all, put_unit-IsSelected s.units u s.unit m sel, r)
      ]
]

remove_slave_unit-IsConsistent :
    (u : ℕ) (s : SlaveSession) → IsConsistent s → OnOk IsConsistent (remove_slave_unit u s)
unfolding remove_slave_unit
remove_slave_unit-IsConsistent u s (a, sel, r) = elim (Bool-cases (is_unit_id u)) [
  | inr e ↦ rw (remove_slave_unit, e) tt
  | inl e ↦
      let all = drop_unit-AreUnits s.units u a in
      elim (Bool-cases (s.unit == u)) [
        | inl z ↦
            rw (remove_slave_unit, e, z) (all, first_of-IsSelected 256 0 (drop_unit s.units u), r)
        | inr n ↦ rw (remove_slave_unit, e, n) (all, drop_unit-IsSelected s.units u s.unit n sel, r)
      ]
]

update_slave_unit_data-IsConsistent :
    (u : ℕ) (m : DataModel) (s : SlaveSession)
    → IsConsistent s
    → OnOk IsConsistent (update_slave_unit_data u m s)
unfolding update_slave_unit_data
update_slave_unit_data-IsConsistent u m s c = elim (Bool-cases (is_unit_id u)) [
  | inr e ↦ rw (update_slave_unit_data, e) tt
  | inl e ↦
      rw (update_slave_unit_data, e)
        (set_unit_data_model-IsConsistent u m s (ground arith) (ground arith) c)
]

-- However the operations of a session, the two parts of its closing and the rounds of its slave loop
-- interleave, every unit that it simulates has an identifier from 1 to 247, the unit it has selected is
-- one that it simulates unless it has selected none (0), and while its slave runs its status says so or
-- its port has been closed.
pub Reached-IsConsistent : (s : SlaveSession) → Reached s → IsConsistent s
unfolding close_port set_error
Reached-IsConsistent s opened = (λ u. inl refl, inl refl, inl refl)
Reached-IsConsistent s' (started source u m s _ reached e) =
    OnOk-ok IsConsistent (start_slave source u m s) s' (start_slave-IsConsistent source u m s) e
Reached-IsConsistent _ (stopped s reached) =
    stop_slave-IsConsistent s (Reached-IsConsistent s reached)
Reached-IsConsistent _ (port_closed b s reached) =
    let c = Reached-IsConsistent s reached in (c.0, c.1, inr (inr refl))
Reached-IsConsistent _ (failed s reached) =
    let c = Reached-IsConsistent s reached in (c.0, c.1, inl refl)
Reached-IsConsistent _ (updated m s reached) =
    set_data_model-IsConsistent m s (Reached-IsConsistent s reached)
Reached-IsConsistent _ (answered d m before s earlier e reached) =
    let b = selected-IsUnit before.units d.unit m (Reached-IsConsistent before earlier).0 e in
    set_unit_data_model-IsConsistent d.unit (serve d.pdu m).1 s b.0 b.1
      (Reached-IsConsistent s reached)
Reached-IsConsistent s' (added u m s _ reached e) =
    OnOk-ok IsConsistent (add_slave_unit u m s) s'
      (add_slave_unit-IsConsistent u m s (Reached-IsConsistent s reached)) e
Reached-IsConsistent s' (removed u s _ reached e) =
    OnOk-ok IsConsistent (remove_slave_unit u s) s'
      (remove_slave_unit-IsConsistent u s (Reached-IsConsistent s reached)) e
Reached-IsConsistent s' (unit_updated u m s _ reached e) =
    OnOk-ok IsConsistent (update_slave_unit_data u m s) s'
      (update_slave_unit_data-IsConsistent u m s (Reached-IsConsistent s reached)) e
