-- ===== src/Modbus/Units.antt =====
-- The units that a slave session of modbus/session.go simulates, and the start and stop of the slave.
-- A snapshot of a data model stands as the model that `DataModelFromSnapshot` makes of it.
pub mod Keys
pub mod Selection
mod Tests
use mocktrue.Base.{ℕ, zero, suc, ◌==◌, ltb, not, ◌||◌, if◌then◌else◌, Bool, true, false}
use mocktrue.Base.{List, [], ◌∷◌, Option, none, some, Result, ok, err}
use mocktrue.Modbus.DataModel.{DataModel, new_data_model}
use mocktrue.Modbus.Session.{Units, put_unit}

pub data Error : Type 0 where
  unit_id no_units closed already_running : Error

pub data Status : Type 0 where
  open_session closed_session error_session running_session : Status

-- What these operations read and write of a session.
pub record SlaveSession : Type 0 where
  pub status : Status
  pub port_open : Bool
  pub slave_running : Bool
  pub unit : ℕ
  pub units : Units
  pub model : DataModel

abbrev pub no_unit : Units
no_unit u = none

abbrev pub new_session : SlaveSession
new_session = record {
  status = open_session;
  port_open = true;
  slave_running = false;
  unit = 0;
  units = no_unit;
  model = new_data_model;
}

abbrev pub is_unit_id : ℕ → Bool
is_unit_id u = not (u == 0 || ltb 247 u)

-- The keys in order from `u` on, among `n` of them.
unfoldable pub unit_ids_from : ℕ → ℕ → Units → List ℕ
unit_ids_from zero u units = []
unit_ids_from (suc n) u units =
    let rest = unit_ids_from n (suc u) units in elim (units u) [ some m ↦ u ∷ rest | none ↦ rest ]

-- A key is a byte.
abbrev pub sorted_unit_ids : Units → List ℕ
sorted_unit_ids = unit_ids_from 256 0

unfoldable pub first_of : List ℕ → ℕ
first_of [] = 0
first_of (u ∷ us) = u

abbrev pub first_unit_id : Units → ℕ
first_unit_id units = first_of (sorted_unit_ids units)

unfoldable pub collect_units : List (ℕ × DataModel) → Units → Result Error Units
collect_units [] units = ok units
collect_units ((u, m) ∷ rest) units =
    let later = collect_units rest (put_unit units u m) in
    if is_unit_id u then later else err unit_id

unfoldable pub or_single : List (ℕ × DataModel) → ℕ → DataModel → List (ℕ × DataModel)
or_single [] u m = (u, m) ∷ []
or_single (s ∷ source) u m = s ∷ source

-- The units of a request, or the single unit of it when it lists none.
unfoldable pub normalize_slave_units : List (ℕ × DataModel) → ℕ → DataModel → Result Error Units
normalize_slave_units source u m = elim (collect_units (or_single source u m) no_unit) [
  | err e ↦ err e
  | ok units ↦ elim (sorted_unit_ids units) [ [] ↦ err no_units | v ∷ vs ↦ ok units ]
]

abbrev pub is_closed : Status → Bool
is_closed closed_session = true
is_closed _ = false

unfoldable pub start_slave :
    List (ℕ × DataModel) → ℕ → DataModel → SlaveSession → Result Error SlaveSession
start_slave source u m s = elim (normalize_slave_units source u m) [
  | err e ↦ err e
  | ok units ↦
      if not s.port_open || is_closed s.status
      then err closed
      else if s.slave_running
      then err already_running
      else ok record {
        status = running_session;
        port_open = s.port_open;
        slave_running = true;
        unit = first_unit_id units;
        units = units;
        model = elim (units (first_unit_id units)) [ some model ↦ model | none ↦ s.model ];
      }
]

unfoldable pub stop_slave : SlaveSession → SlaveSession
stop_slave s =
    if not s.slave_running then s else record s { slave_running = false; status = open_session }

-- The part of `close` behind its `stopSlave`, with a reason or without; the mutex is free between
-- the two.
unfoldable pub close_port : Bool → SlaveSession → SlaveSession
close_port failed s = record s {
  status = if failed then error_session else closed_session;
  port_open = false;
}

unfoldable pub set_error : SlaveSession → SlaveSession
set_error s = record s { status = error_session; slave_running = false }

unfoldable pub set_data_model : DataModel → SlaveSession → SlaveSession
set_data_model m s =
    let u = if s.unit == 0 then 1 else s.unit in
    record s { unit = u; units = put_unit s.units u m; model = m }

unfoldable pub set_unit_data_model : ℕ → DataModel → SlaveSession → SlaveSession
set_unit_data_model u m s = record s {
  units = put_unit s.units u m;
  model = if s.unit == u then m else s.model;
}

unfoldable pub add_slave_unit : ℕ → DataModel → SlaveSession → Result Error SlaveSession
add_slave_unit u m s =
    if not (is_unit_id u)
    then err unit_id
    else ok record s {
      units = put_unit s.units u m;
      unit = if s.unit == 0 then u else s.unit;
      model = if s.unit == 0 then m else s.model;
    }

abbrev pub drop_unit : Units → ℕ → Units
drop_unit units u v = if v == u then none else units v

unfoldable pub remove_slave_unit : ℕ → SlaveSession → Result Error SlaveSession
remove_slave_unit u s =
    if not (is_unit_id u)
    then err unit_id
    else ok record s {
      units = left;
      unit = if s.unit == u then next else s.unit;
      model =
          if s.unit == u
          then elim (left next) [ some model ↦ model | none ↦ new_data_model ]
          else s.model;
    }
  where
    left : Units
    left = drop_unit s.units u

    next : ℕ
    next = first_unit_id left

unfoldable pub update_slave_unit_data : ℕ → DataModel → SlaveSession → Result Error SlaveSession
update_slave_unit_data u m s =
    if not (is_unit_id u) then err unit_id else ok (set_unit_data_model u m s)
