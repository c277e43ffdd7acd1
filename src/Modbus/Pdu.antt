-- ===== src/Modbus/Pdu.antt =====
-- PDUs and function codes of modbus/protocol.go. A FunctionCode is its byte.
use mocktrue.Base.{ℕ, List, ◌∷◌}

abbrev pub exception_mask : ℕ
exception_mask = 0x80

abbrev pub read_coils : ℕ
read_coils = 0x01

abbrev pub read_discrete_inputs : ℕ
read_discrete_inputs = 0x02

abbrev pub read_holding_registers : ℕ
read_holding_registers = 0x03

abbrev pub read_input_registers : ℕ
read_input_registers = 0x04

abbrev pub write_single_coil : ℕ
write_single_coil = 0x05

abbrev pub write_single_register : ℕ
write_single_register = 0x06

abbrev pub write_multiple_coils : ℕ
write_multiple_coils = 0x0f

abbrev pub write_multiple_registers : ℕ
write_multiple_registers = 0x10

abbrev pub illegal_function : ℕ
illegal_function = 0x01

abbrev pub illegal_data_address : ℕ
illegal_data_address = 0x02

abbrev pub illegal_data_value : ℕ
illegal_data_value = 0x03

pub record Pdu : Type 0 where
  pub function : ℕ
  pub payload : List ℕ

-- `PDU.Bytes`
unfoldable pub bytes : Pdu → List ℕ
bytes p = p.function ∷ p.payload
