-- ===== src/Modbus/Response.antt =====
-- `ParseResponse` of modbus/protocol.go.
pub mod Total
use mocktrue.Base.{ℕ, ◌-◌, ◌*◌, ◌%◌, List, [], ◌∷◌, Bool, true, false, Option, none, some, bit_and}
use mocktrue.Base.{◌==◌, not, ◌||◌, if◌then◌else◌, length, Result, ok, err, ◌>>◌, fail_if}
use mocktrue.Modbus.Words.{be_u16, bytes_to_u16s}
use mocktrue.Modbus.Bits.{unpack_bits}
use mocktrue.Modbus.Pdu.{Pdu, bytes, exception_mask, read_coils, read_discrete_inputs}
use mocktrue.Modbus.Pdu.{read_holding_registers, read_input_registers, write_single_coil}
use mocktrue.Modbus.Pdu.{write_single_register, write_multiple_coils, write_multiple_registers}

-- `panic` is an index out of range.
pub data Error : Type 0 where
  panic : Error
  invalid_exception invalid_bit_read bit_read_count : Error
  invalid_register_read register_read_count : Error
  invalid_single_write invalid_multiple_write unsupported_response : Error

pub record ParsedResponse : Type 0 where
  pub function : ℕ
  pub exception : Bool
  pub exception_code : ℕ
  pub address : ℕ
  pub quantity : ℕ
  pub value : ℕ
  pub values : List ℕ
  pub bits : List Bool
  pub raw : List ℕ

-- `ParsedResponse{Function: pdu.Function, Raw: raw}`
abbrev pub plain : Pdu → ParsedResponse
plain pdu = record {
  function = pdu.function;
  exception = false;
  exception_code = 0;
  address = 0;
  quantity = 0;
  value = 0;
  values = [];
  bits = [];
  raw = bytes pdu;
}

-- `function &^ exceptionMask`
unfoldable pub without_mask : ℕ → ℕ
without_mask function = function - bit_and function exception_mask

unfoldable pub parse_exception : Pdu → List ℕ → Result Error ParsedResponse
parse_exception pdu (code ∷ []) = ok (record (plain pdu) {
  function = without_mask pdu.function;
  exception = true;
  exception_code = code;
})
parse_exception pdu [] = err invalid_exception
parse_exception pdu (_ ∷ _ ∷ _) = err invalid_exception

unfoldable pub parse_bit_read : Pdu → List ℕ → Result Error ParsedResponse
parse_bit_read pdu [] = err invalid_bit_read
parse_bit_read pdu (byte_count ∷ rest) = do
  fail_if (not (length rest == byte_count)) bit_read_count
  elim (unpack_bits rest (byte_count * 8)) [
    | some bits ↦ ok (record (plain pdu) { bits = bits })
    | none ↦ err panic
  ]

unfoldable pub parse_register_read : Pdu → List ℕ → Result Error ParsedResponse
parse_register_read pdu [] = err invalid_register_read
parse_register_read pdu (byte_count ∷ rest) = do
  fail_if (not (byte_count % 2 == 0) || not (length rest == byte_count)) register_read_count
  ok (record (plain pdu) { values = bytes_to_u16s rest })

unfoldable pub parse_single_write : Pdu → List ℕ → Result Error ParsedResponse
parse_single_write pdu (a ∷ b ∷ c ∷ d ∷ []) =
    ok (record (plain pdu) { address = be_u16 a b; value = be_u16 c d })
parse_single_write pdu _ = err invalid_single_write

unfoldable pub parse_multiple_write : Pdu → List ℕ → Result Error ParsedResponse
parse_multiple_write pdu (a ∷ b ∷ c ∷ d ∷ []) =
    ok (record (plain pdu) { address = be_u16 a b; quantity = be_u16 c d })
parse_multiple_write pdu _ = err invalid_multiple_write

unfoldable pub parse_response : Pdu → Result Error ParsedResponse
parse_response pdu =
    if not (bit_and function exception_mask == 0)
    then parse_exception pdu payload
    else if function == read_coils || function == read_discrete_inputs
    then parse_bit_read pdu payload
    else if function == read_holding_registers || function == read_input_registers
    then parse_register_read pdu payload
    else if function == write_single_coil || function == write_single_register
    then parse_single_write pdu payload
    else if function == write_multiple_coils || function == write_multiple_registers
    then parse_multiple_write pdu payload
    else err unsupported_response
  where
    open pdu use {function, payload}
