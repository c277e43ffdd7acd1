-- ===== src/Modbus/Slave/Tests.antt =====
-- Requests served on small data models.
use mocktrue.Base.{
  ℕ, ◌≡◌, ◌≢◌, refl, arith, List, [], ◌∷◌, ok, err, some, Bool, true, false, not, ◌==◌,
}
use mocktrue.Modbus.Bits.Laws.{pad}
use mocktrue.Modbus.Words.{be_u16}
use mocktrue.Modbus.Pdu
use mocktrue.Modbus.Pdu.{Pdu, bytes}
use mocktrue.Modbus.DataModel.{new_data_model}
use mocktrue.Modbus.Request.{build_write_multiple_coils_request, build_read_request}
use mocktrue.Modbus.Request.{build_write_multiple_registers_request, build_write_single_request}
use mocktrue.Modbus.Response.{plain, parse_response, bit_read_count, register_read_count}
use mocktrue.Modbus.Slave.{serve, normal_response, exception_response, serve_write_single_coil}
use mocktrue.Modbus.Slave.Registers
use mocktrue.Modbus.Slave.Registers.{read_registers-write_registers, read_registers_over_limit}
use mocktrue.Modbus.Slave.Coils
use mocktrue.Modbus.Slave.Coils.{read_coils-write_coils, serve_single_coil, read_coils_over_limit}
use mocktrue.Modbus.Slave.Exceptions.{serve_exception_unchanged, parse_response-serve_exception}

abbrev two_values : List ℕ
two_values = 513 ∷ 65535 ∷ []

abbrev three_coils : List Bool
three_coils = true ∷ false ∷ true ∷ []

-- A single coil may only be written with 0 or 0xff00.
abbrev bad_value : Pdu
bad_value = record { function = 5; payload = 0 ∷ 1 ∷ 0 ∷ 2 ∷ [] }

bad_value_refused : (serve bad_value new_data_model).0.exception ≡ true
unfolding serve serve_write_single_coil exception_response be_u16
bad_value_refused = refl

read_registers-write_registers_example :
    (w r : Pdu) × (build_write_multiple_registers_request 65535 two_values ≡ ok w)
    × (build_read_request Pdu.read_holding_registers 65535 2 ≡ ok r)
    × (let (response, m') = serve w new_data_model in
        let answer = (serve r m').0.pdu in
        (parse_response response.pdu
          ≡ ok (record (plain response.pdu) { address = 65535; quantity = 2 }))
        × (parse_response answer ≡ ok (record (plain answer) { values = two_values })))
read_registers-write_registers_example =
    read_registers-write_registers new_data_model 65535 two_values (omega arith) (ground arith)
      (omega arith) (omega arith)

read_coils-write_coils_example :
    (w r : Pdu) × (build_write_multiple_coils_request 9 three_coils ≡ ok w)
    × (build_read_request Pdu.read_coils 9 3 ≡ ok r)
    × (let (response, m') = serve w new_data_model in
        let answer = (serve r m').0.pdu in
        (parse_response response.pdu
          ≡ ok (record (plain response.pdu) { address = 9; quantity = 3 }))
        × (parse_response answer ≡ ok (record (plain answer) { bits = pad three_coils 8 })))
read_coils-write_coils_example =
    read_coils-write_coils new_data_model 9 three_coils (omega arith) (omega arith) (omega arith)

serve_single_coil_example :
    (w : Pdu) × (build_write_single_request Pdu.write_single_coil 7 1 ≡ ok w)
    × ((serve w new_data_model).1.coils 7 ≡ some (not (1 == 0)))
    × ((k : ℕ) → 7 ≢ k → (serve w new_data_model).1.coils k ≡ new_data_model.coils k)
    × ((serve w new_data_model).0 ≡ normal_response w)
serve_single_coil_example = serve_single_coil new_data_model 7 1 (omega arith)

serve_exception_unchanged_example : (serve bad_value new_data_model).1 ≡ new_data_model
serve_exception_unchanged_example =
    serve_exception_unchanged bad_value new_data_model bad_value_refused

parse_response-serve_exception_example :
    let r = (serve bad_value new_data_model).0 in
    parse_response r.pdu
    ≡ ok
        (record (plain r.pdu) { function = 5; exception = true; exception_code = r.exception_code })
parse_response-serve_exception_example =
    parse_response-serve_exception bad_value new_data_model (omega arith) bad_value_refused

read_registers_over_limit_example :
    parse_response (serve (Registers.read_request 0 128) new_data_model).0.pdu
    ≡ err register_read_count
read_registers_over_limit_example =
    read_registers_over_limit new_data_model 0 128 (omega arith) (omega arith) (omega arith)

read_coils_over_limit_example :
    parse_response (serve (Coils.read_request 0 2041) new_data_model).0.pdu ≡ err bit_read_count
read_coils_over_limit_example =
    read_coils_over_limit new_data_model 0 2041 (omega arith) (omega arith) (omega arith)
