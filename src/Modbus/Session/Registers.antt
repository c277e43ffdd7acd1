-- ===== src/Modbus/Session/Registers.antt =====
-- The requests of a master of modbus/session.go that write and read holding registers: the PDUs
-- that are built for them, with the responses of a slave.
use mocktrue.Base.{ℕ, ◌<◌, ◌≤◌, ◌≡◌, ◌≢◌, refl, ap, ◌∙◌, List, [], ◌∷◌, All}
use mocktrue.Base.{ok, length, arith, text_eq}
use mocktrue.Base.Hex.{IsByte}
use mocktrue.Modbus.Words.{IsU16, u16, u16_pair, u16s_to_bytes-IsByte, length-u16s_to_bytes}
use mocktrue.Modbus.Pdu
use mocktrue.Modbus.Pdu.{Pdu, bytes}
use mocktrue.Modbus.DataModel.{DataModel}
use mocktrue.Modbus.DataModel.Laws.{read_loop-write_loop}
use mocktrue.Modbus.Slave.{serve, normal_response, register_read_response}
use mocktrue.Modbus.Slave.Registers.{write_request, read_request, written, serve_read_holding}
use mocktrue.Modbus.Request.{build_read_request, build_write_multiple_registers_request}
use mocktrue.Modbus.Frame.RoundTrip.{IsWire}
use mocktrue.Modbus.Address.{protocol_address, zero_based}
use mocktrue.Modbus.Session.{MasterRequest, build_request, build_master_pdu}

-- The requests of a master for registers, with addresses that count from zero.
abbrev pub write_registers : ℕ → ℕ → List ℕ → MasterRequest
write_registers unit address vs = record {
  unit = unit;
  function = Pdu.write_multiple_registers;
  address_mode = zero_based;
  address = address;
  quantity = 0;
  value = 0;
  coil_values = [];
  register_values = vs;
  retries = 0;
}

abbrev pub read_registers : ℕ → ℕ → ℕ → MasterRequest
read_registers unit address quantity = record {
  unit = unit;
  function = Pdu.read_holding_registers;
  address_mode = zero_based;
  address = address;
  quantity = quantity;
  value = 0;
  coil_values = [];
  register_values = [];
  retries = 0;
}

zero_based_address :
    (function address : ℕ) → protocol_address zero_based function address ≡ ok address
unfolding protocol_address text_eq
zero_based_address function address = refl

pub write_built :
    (unit address : ℕ) (vs : List ℕ)
    → 0 < length vs
    → length vs ≤ 123
    → build_master_pdu (write_registers unit address vs) ≡ ok (write_request address vs)
unfolding build_master_pdu build_request build_write_multiple_registers_request
write_built unit address vs pos few =
    rw (build_master_pdu, zero_based_address Pdu.write_multiple_registers address) (ground arith)

pub read_built :
    (unit address quantity : ℕ)
    → quantity ≢ 0
    → build_master_pdu (read_registers unit address quantity) ≡ ok (read_request address quantity)
unfolding build_master_pdu build_request build_read_request
read_built unit address quantity nz =
    rw (build_master_pdu, zero_based_address Pdu.read_holding_registers address) (ground arith)

pair_bytes : (address quantity : ℕ) → All IsByte (u16_pair address quantity)
unfolding u16_pair
pair_bytes address quantity = ground arith

pub write_bytes :
    (unit address : ℕ) (vs : List ℕ) → IsByte unit → IsWire unit (write_request address vs)
unfolding bytes u16
write_bytes unit address vs u = (
  u,
  (
    omega arith,
    (
      omega arith,
      (omega arith, (omega arith, (omega arith, (omega arith, u16s_to_bytes-IsByte vs)))),
    ),
  ),
)

pub length-write :
    (unit address : ℕ) (vs : List ℕ)
    → length vs ≤ 123
    → length (unit ∷ bytes (write_request address vs)) ≤ 254
unfolding bytes u16
length-write unit address vs few = omega (arith, length-u16s_to_bytes vs)

pub read_bytes :
    (unit : ℕ) (vs : List ℕ)
    → IsByte unit
    → length vs ≤ 123
    → IsWire unit (register_read_response Pdu.read_holding_registers vs)
unfolding bytes register_read_response
read_bytes unit vs u few = (u, (omega arith, (omega arith, u16s_to_bytes-IsByte vs)))

pub length-read :
    (unit : ℕ) (vs : List ℕ)
    → length vs ≤ 123
    → length (unit ∷ bytes (register_read_response Pdu.read_holding_registers vs)) ≤ 254
unfolding bytes register_read_response
length-read unit vs few = omega (arith, length-u16s_to_bytes vs)

-- The read response on the model that the write leaves.
pub read_back :
    (m : DataModel) (address : ℕ) (vs : List ℕ)
    → IsU16 address
    → 0 < length vs
    → length vs ≤ 123
    → serve (read_request address (length vs)) (written m address vs) ≡ (
      normal_response (register_read_response Pdu.read_holding_registers vs),
      written m address vs,
    )
read_back m address vs ha pos few =
    serve_read_holding (written m address vs) address (length vs) ha (omega arith) (omega arith)
    ∙ ap
        (λ ws. (
          normal_response (register_read_response Pdu.read_holding_registers ws),
          written m address vs,
        ))
        (read_loop-write_loop 0 m.holding_registers address 0 vs (omega arith))

pub IsWire-pair :
    (unit address quantity function : ℕ)
    → IsByte unit
    → IsByte function
    → IsWire unit record { function = function; payload = u16_pair address quantity }
unfolding bytes
IsWire-pair unit address quantity function u f = (u, (f, pair_bytes address quantity))

pub length-pair :
    (unit address quantity function : ℕ)
    → length (unit ∷ bytes record { function = function; payload = u16_pair address quantity })
      ≤ 254
unfolding bytes u16_pair
length-pair unit address quantity function = ground arith
