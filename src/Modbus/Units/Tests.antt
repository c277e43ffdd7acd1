-- ===== src/Modbus/Units/Tests.antt =====
-- A slave of modbus/session.go that simulates two units, of which the selected one is removed.
use mocktrue.Base.{ℕ, ◌≡◌, refl, List, [], ◌∷◌, ok, true}
use mocktrue.Modbus.DataModel.{DataModel, new_data_model}
use mocktrue.Modbus.Session.{put_unit}
use mocktrue.Modbus.Units.{
  SlaveSession, running_session, no_unit, new_session, drop_unit, start_slave, remove_slave_unit,
  normalize_slave_units, collect_units, or_single, unit_ids_from, first_of,
}
use mocktrue.Modbus.Units.Selection.{opened, started, removed, IsConsistent, Reached-IsConsistent}

abbrev two_units : List (ℕ × DataModel)
two_units = (17, new_data_model) ∷ (3, new_data_model) ∷ []

abbrev simulating : SlaveSession
simulating = record {
  status = running_session;
  port_open = true;
  slave_running = true;
  unit = 3;
  units = put_unit (put_unit no_unit 17 new_data_model) 3 new_data_model;
  model = new_data_model;
}

abbrev reselected : SlaveSession
reselected = record simulating { unit = 17; units = drop_unit simulating.units 3 }

two_started : start_slave two_units 0 new_data_model new_session ≡ ok simulating
unfolding start_slave normalize_slave_units collect_units or_single unit_ids_from first_of
two_started = refl

selected_removed : remove_slave_unit 3 simulating ≡ ok reselected
unfolding remove_slave_unit unit_ids_from first_of
selected_removed = refl

Reached-IsConsistent_example : IsConsistent reselected
Reached-IsConsistent_example = Reached-IsConsistent reselected (
    removed 3 simulating reselected
      (started two_units 0 new_data_model new_session simulating opened two_started)
      selected_removed)
