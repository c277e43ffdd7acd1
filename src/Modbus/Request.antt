-- ===== src/Modbus/Request.antt =====
-- The request builders of modbus/protocol.go, `BuildReadRequest` to
-- `BuildWriteMultipleRegistersRequest`. The `Must` variants panic where these return an error.
use mocktrue.Base.{ℕ, ◌*◌, ◌%◌, List, ◌∷◌, ◌++◌, Bool, Option, none, some}
use mocktrue.Base.{ltb, ◌==◌, not, ◌&&◌, if◌then◌else◌, length}
use mocktrue.Base.{Result, ok, err, ◌>>◌, fail_if}
use mocktrue.Modbus.Words.{u16, u16_pair, u16s_to_bytes}
use mocktrue.Modbus.Bits.{pack_bits}
use mocktrue.Modbus.Pdu.{Pdu, read_coils, read_discrete_inputs, read_holding_registers}
use mocktrue.Modbus.Pdu.{read_input_registers, write_single_coil, write_single_register}
use mocktrue.Modbus.Pdu.{write_multiple_coils, write_multiple_registers}

pub data Error : Type 0 where
  unsupported_read quantity_zero unsupported_single_write : Error
  no_coils too_many_coils no_registers too_many_registers : Error

unfoldable pub build_read_request : ℕ → ℕ → ℕ → Result Error Pdu
build_read_request function address quantity = do
  fail_if
      (not (function == read_coils)
        && not (function == read_discrete_inputs)
        && not (function == read_holding_registers)
        && not (function == read_input_registers))
      unsupported_read
  fail_if (quantity == 0) quantity_zero
  ok (record { function = function; payload = u16_pair address quantity })

unfoldable pub build_write_single_request : ℕ → ℕ → ℕ → Result Error Pdu
build_write_single_request function address value =
    if function == write_single_coil
    then ok (record {
      function = function;
      payload = u16_pair address (if not (value == 0) then 0xff00 else value);
    })
    else if function == write_single_register
    then ok (record { function = function; payload = u16_pair address value })
    else err unsupported_single_write

unfoldable pub build_write_multiple_coils_request : ℕ → List Bool → Result Error Pdu
build_write_multiple_coils_request address values = do
  fail_if (length values == 0) no_coils
  fail_if (ltb 1968 (length values)) too_many_coils
  let packed = pack_bits values
  ok (record {
    function = write_multiple_coils;
    payload = u16 address ++ (u16 (length values % 65536) ++ ((length packed % 256) ∷ packed));
  })

unfoldable pub build_write_multiple_registers_request : ℕ → List ℕ → Result Error Pdu
build_write_multiple_registers_request address values = do
  fail_if (length values == 0) no_registers
  fail_if (ltb 123 (length values)) too_many_registers
  ok (record {
    function = write_multiple_registers;
    payload =
        u16 address
        ++ (u16 (length values % 65536) ++ ((length values * 2 % 256) ∷ u16s_to_bytes values));
  })

-- `MustBuild…`: `none` is the panic.
abbrev must : Result Error Pdu → Option Pdu
must (ok pdu) = some pdu
must (err e) = none

pub must_build_read_request : ℕ → ℕ → ℕ → Option Pdu
must_build_read_request function address quantity =
    must (build_read_request function address quantity)

pub must_build_write_single_request : ℕ → ℕ → ℕ → Option Pdu
must_build_write_single_request function address value =
    must (build_write_single_request function address value)

pub must_build_write_multiple_coils_request : ℕ → List Bool → Option Pdu
must_build_write_multiple_coils_request address values =
    must (build_write_multiple_coils_request address values)

pub must_build_write_multiple_registers_request : ℕ → List ℕ → Option Pdu
must_build_write_multiple_registers_request address values =
    must (build_write_multiple_registers_request address values)
