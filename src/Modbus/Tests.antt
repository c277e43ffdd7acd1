-- ===== src/Modbus/Tests.antt =====
-- Checksums, packed bits, addresses and tables on sample values.
use mocktrue.Base.{
  ◌≢◌, err, some, ℕ, ◌+◌, ◌<◌, ◌≡◌, ◌↔◌, refl, arith, List, [], ◌∷◌, Bool, true, false, ok, none,
}
use mocktrue.Modbus.Checksum.{crc16}
use mocktrue.Modbus.Response.{panic, parse_response}
use mocktrue.Modbus.Response.Total.{parse_response_ends}
use mocktrue.Modbus.Bits.{pack_bits, unpack_bits}
use mocktrue.Modbus.Bits.Laws.{pad, length-pack_bits, unpack_bits-pack_bits}
use mocktrue.Modbus.Pdu
use mocktrue.Modbus.Pdu.{Pdu}
use mocktrue.Modbus.DataModel.{Table, read_range, write_range, write_loop}
use mocktrue.Modbus.DataModel.Laws.{read_range-write_range}
use mocktrue.Modbus.Address.{plc, plc_base, protocol_address, protocol_address-plc}

-- The checksum of "123456789".
check_value : crc16 (0x31 ∷ 0x32 ∷ 0x33 ∷ 0x34 ∷ 0x35 ∷ 0x36 ∷ 0x37 ∷ 0x38 ∷ 0x39 ∷ []) ≡ 0x4b37
unfolding crc16
check_value = refl

abbrev message : List ℕ
message = 17 ∷ 3 ∷ 255 ∷ []

abbrev five_bits : List Bool
five_bits = true ∷ false ∷ true ∷ true ∷ false ∷ []

abbrev values_at_end : List ℕ
values_at_end = 7 ∷ 8 ∷ 9 ∷ []

abbrev untouched : Table ℕ
untouched = λ _. none

packed_five : pack_bits five_bits ≡ 13 ∷ []
unfolding pack_bits
packed_five = refl

unpack_bits-pack_bits_example : unpack_bits (pack_bits five_bits) 8 ≡ some (pad five_bits 8)
unpack_bits-pack_bits_example =
    unpack_bits-pack_bits five_bits 8 (omega (arith, length-pack_bits five_bits))

-- A response to a read of coils that says it has two bytes and has one.
abbrev short_response : Pdu
short_response = record { function = 1; payload = 2 ∷ 205 ∷ [] }

parse_response_ends_example : parse_response short_response ≢ err panic
parse_response_ends_example = parse_response_ends short_response

holding_base : plc_base Pdu.read_holding_registers ≡ ok 40000
unfolding plc_base
holding_base = refl

protocol_address-plc_example :
    (protocol_address plc Pdu.read_holding_registers 40108 ≡ ok 107)
    ↔ ((40108 ≡ 40000 + 107 + 1) × (107 < 9999))
protocol_address-plc_example =
    protocol_address-plc Pdu.read_holding_registers 40108 107 40000 holding_base

written_at_end :
    write_range untouched 65534 values_at_end ≡ ok (write_loop untouched 65534 0 values_at_end)
unfolding write_range
written_at_end = refl

read_range-write_range_example :
    read_range 0 (write_loop untouched 65534 0 values_at_end) 65534 3 ≡ ok values_at_end
read_range-write_range_example =
    read_range-write_range 0 untouched (write_loop untouched 65534 0 values_at_end) 65534
      values_at_end (omega arith) (omega arith) written_at_end
