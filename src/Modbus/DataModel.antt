-- ===== src/Modbus/DataModel.antt =====
-- The four tables of modbus/datamodel.go. A Go map is a function into an option: `none` for a key
-- that is absent, which reads as the zero value.
pub mod Laws
use mocktrue.Base.{ℕ, zero, suc, ◌+◌, ◌%◌, List, [], ◌∷◌, Bool, false, Option, none, some}
use mocktrue.Base.{◌==◌, if◌then◌else◌, length, Result, ok, err, ◌>>=◌, ◌>>◌, fail_if}

pub data Error : Type 0 where
  no_values quantity_zero : Error

abbrev pub Table : Type 0 → Type 0
Table V = ℕ → Option V

pub record DataModel : Type 0 where
  pub coils : Table Bool
  pub discrete_inputs : Table Bool
  pub input_registers : Table ℕ
  pub holding_registers : Table ℕ

abbrev pub new_data_model : DataModel
new_data_model = record {
  coils = λ _. none;
  discrete_inputs = λ _. none;
  input_registers = λ _. none;
  holding_registers = λ _. none;
}

-- `address+uint16(i)`
abbrev pub at : ℕ → ℕ → ℕ
at address i = (address + i % 65536) % 65536

module _ {V : Type 0} where
  -- `m[k] = v`
  pub put : Table V → ℕ → V → Table V
  put m k v j = if k == j then some v else m j

  pub get : V → Table V → ℕ → V
  get d m k = elim (m k) [ none ↦ d | some v ↦ v ]

  -- `for k, v := range src { dst[k] = v }`
  pub copy_map : Table V → Table V → Table V
  copy_map dst src k = elim (src k) [ none ↦ dst k | some v ↦ some v ]

  -- The write loop from index `i`.
  pub write_loop : Table V → ℕ → ℕ → List V → Table V
  write_loop m address i [] = m
  write_loop m address i (v ∷ vs) = write_loop (put m (at address i) v) address (i + 1) vs

  -- The read loop from index `i`, with `n` rounds to go.
  pub read_loop : V → Table V → ℕ → ℕ → ℕ → List V
  read_loop d m address i zero = []
  read_loop d m address i (suc n) = get d m (at address i) ∷ read_loop d m address (i + 1) n

  unfoldable pub write_range : Table V → ℕ → List V → Result Error (Table V)
  write_range m address values = do
    fail_if (length values == 0) no_values
    ok (write_loop m address 0 values)

  -- `readBoolRange` and `readU16Range`, which differ in the zero value `d`; the quantity that they
  -- are given is a uint16.
  unfoldable pub read_range : V → Table V → ℕ → ℕ → Result Error (List V)
  read_range d m address quantity = do
    fail_if (quantity % 65536 == 0) quantity_zero
    ok (read_loop d m address 0 (quantity % 65536))

unfoldable pub read_coils : DataModel → ℕ → ℕ → Result Error (List Bool)
read_coils m address quantity = read_range false m.coils address quantity

unfoldable pub read_discrete_inputs : DataModel → ℕ → ℕ → Result Error (List Bool)
read_discrete_inputs m address quantity = read_range false m.discrete_inputs address quantity

unfoldable pub read_input_registers : DataModel → ℕ → ℕ → Result Error (List ℕ)
read_input_registers m address quantity = read_range 0 m.input_registers address quantity

unfoldable pub read_holding_registers : DataModel → ℕ → ℕ → Result Error (List ℕ)
read_holding_registers m address quantity = read_range 0 m.holding_registers address quantity

-- The write methods return the new model; on an error the model is as before.
unfoldable pub write_coils : DataModel → ℕ → List Bool → Result Error DataModel
write_coils m address values = do
  t ← write_range m.coils address values
  ok (record m { coils = t })

unfoldable pub write_holding_registers : DataModel → ℕ → List ℕ → Result Error DataModel
write_holding_registers m address values = do
  t ← write_range m.holding_registers address values
  ok (record m { holding_registers = t })

unfoldable pub write_discrete_inputs : DataModel → ℕ → List Bool → Result Error DataModel
write_discrete_inputs m address values = do
  t ← write_range m.discrete_inputs address values
  ok (record m { discrete_inputs = t })

unfoldable pub write_input_registers : DataModel → ℕ → List ℕ → Result Error DataModel
write_input_registers m address values = do
  t ← write_range m.input_registers address values
  ok (record m { input_registers = t })

-- `Clone`, where `none` is the nil receiver.
pub clone : Option DataModel → DataModel
unfolding copy_map
clone none = new_data_model
clone (some m) = record {
  coils = copy_map (λ _. none) m.coils;
  discrete_inputs = copy_map (λ _. none) m.discrete_inputs;
  input_registers = copy_map (λ _. none) m.input_registers;
  holding_registers = copy_map (λ _. none) m.holding_registers;
}
