-- ===== src/Modbus/Slave.antt =====
-- `BuildSlaveResponse` of modbus/datamodel.go: one request served on the data model.
pub mod Registers
pub mod Coils
pub mod Exceptions
mod Tests
use mocktrue.Base.{ℕ, ◌+◌, ◌*◌, ◌%◌, List, [], ◌∷◌, ◌++◌, Bool, true, false, Option, none, some}
use mocktrue.Base.{◌==◌, ltb, not, ◌&&◌, ◌||◌, if◌then◌else◌, length, take, bit_and, bit_or}
use mocktrue.Base.{Result, ok, err}
use mocktrue.Modbus.Words.{be_u16, u16_pair, bytes_to_u16s, u16s_to_bytes}
use mocktrue.Modbus.Bits.{pack_bits, unpack_bits}
use mocktrue.Modbus.Pdu
use mocktrue.Modbus.Pdu.{Pdu, exception_mask, illegal_function}
use mocktrue.Modbus.Pdu.{illegal_data_address, illegal_data_value}
use mocktrue.Modbus.DataModel
use mocktrue.Modbus.DataModel.{DataModel, new_data_model, write_coils, write_holding_registers}
use mocktrue.Modbus.Response.{without_mask}

pub record SlaveResponse : Type 0 where
  pub pdu : Pdu
  pub exception : Bool
  pub exception_code : ℕ

unfoldable pub normal_response : Pdu → SlaveResponse
normal_response pdu = record { pdu = pdu; exception = false; exception_code = 0 }

unfoldable pub exception_response : ℕ → ℕ → SlaveResponse
exception_response function code = record {
  pdu = record { function = bit_or function exception_mask; payload = code ∷ [] };
  exception = true;
  exception_code = code;
}

unfoldable pub parse_address_quantity : List ℕ → Option (ℕ × ℕ)
parse_address_quantity (a ∷ b ∷ c ∷ d ∷ []) =
    let quantity = be_u16 c d in if quantity == 0 then none else some (be_u16 a b, quantity)
parse_address_quantity _ = none

-- The address, the quantity and the unpacked values; the byte count is not used by the caller. The
-- bytes are as many as the count says, so that `unpack_bits` does not panic.
unfoldable pub parse_multiple_coils : List ℕ → Option (ℕ × ℕ × List Bool)
parse_multiple_coils (a ∷ b ∷ c ∷ d ∷ byte_count ∷ v ∷ rest) =
    let quantity = be_u16 c d in
    if quantity == 0 || byte_count == 0 || not (length (v ∷ rest) == byte_count)
    then none
    else elim (unpack_bits (v ∷ rest) (byte_count * 8)) [
      | none ↦ none
      | some values ↦
          if ltb (length values) quantity then none else some (be_u16 a b, quantity, values)
    ]
parse_multiple_coils _ = none

unfoldable pub parse_multiple_registers : List ℕ → Option (ℕ × List ℕ)
parse_multiple_registers (a ∷ b ∷ c ∷ d ∷ byte_count ∷ v ∷ rest) =
    let quantity = be_u16 c d in
    if quantity == 0 || not (byte_count == quantity * 2) || not (length (v ∷ rest) == byte_count)
    then none
    else some (be_u16 a b, bytes_to_u16s (v ∷ rest))
parse_multiple_registers _ = none

-- `append([]byte{byte(len(packed))}, packed...)`
unfoldable pub bit_read_response : ℕ → List Bool → Pdu
bit_read_response function values =
    let packed = pack_bits values in
    record { function = function; payload = (length packed % 256) ∷ packed }

unfoldable pub register_read_response : ℕ → List ℕ → Pdu
register_read_response function values = record {
  function = function;
  payload = (length values * 2 % 256) ∷ u16s_to_bytes values;
}

-- A read request: parse, read, answer.
unfoldable pub serve_read :
    {V : Type 0}
    → Pdu
    → (ℕ → ℕ → Result DataModel.Error (List V))
    → (ℕ → List V → Pdu)
    → SlaveResponse
serve_read request read answer = elim (parse_address_quantity request.payload) [
  | none ↦ exception_response request.function illegal_data_value
  | some (address, quantity) ↦ elim (read address quantity) [
    | ok values ↦ normal_response (answer request.function values)
    | err e ↦ exception_response request.function illegal_data_address
  ]
]

-- The write methods' errors are dropped: `_ = model.WriteCoils(…)`.
abbrev kept : DataModel → Result DataModel.Error DataModel → DataModel
kept m (ok m') = m'
kept m (err e) = m

unfoldable pub serve_write_single_coil : Pdu → List ℕ → DataModel → SlaveResponse × DataModel
serve_write_single_coil request (a ∷ b ∷ c ∷ d ∷ []) model =
    let value = be_u16 c d in
    if not (value == 0x0000) && not (value == 0xff00)
    then (exception_response request.function illegal_data_value, model)
    else (
      normal_response request,
      kept model (write_coils model (be_u16 a b) ((value == 0xff00) ∷ [])),
    )
serve_write_single_coil request _ model =
    (exception_response request.function illegal_data_value, model)

unfoldable pub serve_write_single_register : Pdu → List ℕ → DataModel → SlaveResponse × DataModel
serve_write_single_register request (a ∷ b ∷ c ∷ d ∷ []) model = (
  normal_response request,
  kept model (write_holding_registers model (be_u16 a b) (be_u16 c d ∷ [])),
)
serve_write_single_register request _ model =
    (exception_response request.function illegal_data_value, model)

unfoldable pub serve_write_multiple_coils : Pdu → DataModel → SlaveResponse × DataModel
serve_write_multiple_coils request model = elim (parse_multiple_coils request.payload) [
  | none ↦ (exception_response request.function illegal_data_value, model)
  | some (address, quantity, values) ↦ (
    normal_response
        (record { function = request.function; payload = u16_pair address (quantity % 65536) }),
    kept model (write_coils model address (take quantity values)),
  )
]

unfoldable pub serve_write_multiple_registers : Pdu → DataModel → SlaveResponse × DataModel
serve_write_multiple_registers request model = elim (parse_multiple_registers request.payload) [
  | none ↦ (exception_response request.function illegal_data_value, model)
  | some (address, values) ↦ (
    normal_response (record {
      function = request.function;
      payload = u16_pair address (length values % 65536);
    }),
    kept model (write_holding_registers model address values),
  )
]

-- The switch on the function code, over a model that is there.
unfoldable pub serve : Pdu → DataModel → SlaveResponse × DataModel
serve request model =
    if not (bit_and function exception_mask == 0)
    then (exception_response (without_mask function) illegal_function, model)
    else if function == Pdu.read_coils
    then (serve_read request (DataModel.read_coils model) bit_read_response, model)
    else if function == Pdu.read_discrete_inputs
    then (serve_read request (DataModel.read_discrete_inputs model) bit_read_response, model)
    else if function == Pdu.read_holding_registers
    then (serve_read request (DataModel.read_holding_registers model) register_read_response, model)
    else if function == Pdu.read_input_registers
    then (serve_read request (DataModel.read_input_registers model) register_read_response, model)
    else if function == Pdu.write_single_coil
    then serve_write_single_coil request payload model
    else if function == Pdu.write_single_register
    then serve_write_single_register request payload model
    else if function == Pdu.write_multiple_coils
    then serve_write_multiple_coils request model
    else if function == Pdu.write_multiple_registers
    then serve_write_multiple_registers request model
    else (exception_response function illegal_function, model)
  where
    open request use {function, payload}

-- With a nil model the request is served on a fresh one, which is dropped. The unit is not used.
unfoldable pub build_slave_response : ℕ → Pdu → Option DataModel → SlaveResponse × Option DataModel
build_slave_response unit request none = ((serve request new_data_model).0, none)
build_slave_response unit request (some model) =
    let (response, model') = serve request model in (response, some model')
