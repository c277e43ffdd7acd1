-- ===== src/Modbus/Slave/Registers.antt =====
-- Register requests from the master's builder through `BuildSlaveResponse` to `ParseResponse`.
use mocktrue.Base.{ℕ, ◌*◌, ◌%◌, ◌<◌, ◌≤◌, ◌≡◌, ◌≢◌, arith}
use mocktrue.Base.{List, [], ◌∷◌, ◌++◌, some, length, All, ok, err}
use native.Mathlib.Nat.{mod-eq_of_lt}
use mocktrue.Modbus.Words.{IsU16, u16, u16_pair, be_u16-hi, u16s_to_bytes}
use mocktrue.Modbus.Words.{bytes_to_u16s-u16s_to_bytes, length-u16s_to_bytes}
use mocktrue.Modbus.Pdu
use mocktrue.Modbus.Pdu.{Pdu, bytes}
use mocktrue.Modbus.DataModel
use mocktrue.Modbus.DataModel.{DataModel, write_loop, read_loop, write_holding_registers}
use mocktrue.Modbus.DataModel.Laws.{read_loop-write_loop, length-read_loop}
use mocktrue.Modbus.Request.{build_write_multiple_registers_request, build_read_request}
use mocktrue.Modbus.Response.{plain, parse_response, parse_register_read}
use mocktrue.Modbus.Response.{parse_multiple_write, register_read_count}
use mocktrue.Modbus.Slave.{serve, serve_read, normal_response}
use mocktrue.Modbus.Slave.{serve_write_multiple_registers, register_read_response}
use mocktrue.Modbus.Slave.{parse_multiple_registers, parse_address_quantity}

-- The requests that the builders make for `vs` at `address`.
abbrev pub write_request : ℕ → List ℕ → Pdu
write_request address vs = record {
  function = Pdu.write_multiple_registers;
  payload = u16 address ++ (u16 (length vs % 65536) ++ ((length vs * 2 % 256) ∷ u16s_to_bytes vs));
}

abbrev pub read_request : ℕ → ℕ → Pdu
read_request address quantity = record {
  function = Pdu.read_holding_registers;
  payload = u16_pair address quantity;
}

-- The model after the write.
abbrev pub written : DataModel → ℕ → List ℕ → DataModel
written m address vs = record m { holding_registers = write_loop m.holding_registers address 0 vs }

parse_multiple_registers_lem :
    (address : ℕ) (vs : List ℕ)
    → IsU16 address
    → All IsU16 vs
    → 0 < length vs
    → length vs ≤ 123
    → parse_multiple_registers (write_request address vs).payload ≡ some (address, vs)
unfolding parse_multiple_registers u16 u16s_to_bytes
parse_multiple_registers_lem address [] ha h pos few = absurd (omega arith)
parse_multiple_registers_lem address (v ∷ vs) ha h pos few = ground (
  arith,
  be_u16-hi address ha,
  be_u16-hi (length (v ∷ vs) % 65536),
  length-u16s_to_bytes vs,
  bytes_to_u16s-u16s_to_bytes (v ∷ vs) h,
)

pub serve_write :
    (m : DataModel) (address : ℕ) (vs : List ℕ)
    → IsU16 address
    → All IsU16 vs
    → 0 < length vs
    → length vs ≤ 123
    → serve (write_request address vs) m ≡ (
      normal_response (record {
        function = Pdu.write_multiple_registers;
        payload = u16_pair address (length vs % 65536);
      }),
      written m address vs,
    )
unfolding serve serve_write_multiple_registers write_holding_registers DataModel.write_range
serve_write m address vs ha h pos few =
    ground (arith, parse_multiple_registers_lem address vs ha h pos few)

pub parse_address_quantity_lem :
    (address quantity : ℕ)
    → IsU16 address
    → IsU16 quantity
    → quantity ≢ 0
    → parse_address_quantity (u16_pair address quantity) ≡ some (address, quantity)
unfolding parse_address_quantity u16_pair
parse_address_quantity_lem address quantity ha hq nz =
    ground (arith, be_u16-hi address ha, be_u16-hi quantity hq)

-- What a read of holding registers answers.
pub serve_read_holding :
    (m : DataModel) (address quantity : ℕ)
    → IsU16 address
    → IsU16 quantity
    → quantity ≢ 0
    → serve (read_request address quantity) m ≡ (
      normal_response (
          register_read_response Pdu.read_holding_registers
            (read_loop 0 m.holding_registers address 0 quantity)),
      m,
    )
unfolding serve serve_read DataModel.read_holding_registers DataModel.read_range
serve_read_holding m address quantity ha hq nz =
    ground (arith, parse_address_quantity_lem address quantity ha hq nz)

pub parse_register_read_lem :
    (vs : List ℕ)
    → All IsU16 vs
    → length vs ≤ 127
    → let pdu = register_read_response Pdu.read_holding_registers vs in
      parse_response pdu ≡ ok (record (plain pdu) { values = vs })
unfolding parse_response parse_register_read register_read_response bytes
parse_register_read_lem vs h few =
    ground (arith, length-u16s_to_bytes vs, bytes_to_u16s-u16s_to_bytes vs h)

pub acknowledged :
    (address quantity : ℕ)
    → IsU16 address
    → IsU16 quantity
    → let pdu : Pdu = record {
      function = Pdu.write_multiple_registers;
      payload = u16_pair address quantity;
    } in
      parse_response pdu ≡ ok (record (plain pdu) { address = address; quantity = quantity })
unfolding parse_response parse_multiple_write u16_pair bytes
acknowledged address quantity ha hq = ground (arith, be_u16-hi address ha, be_u16-hi quantity hq)

write_acknowledged :
    (m : DataModel) (address : ℕ) (vs : List ℕ)
    → IsU16 address
    → All IsU16 vs
    → 0 < length vs
    → length vs ≤ 123
    → let response = (serve (write_request address vs) m).0 in
      parse_response response.pdu
      ≡ ok (record (plain response.pdu) { address = address; quantity = length vs })
unfolding normal_response
write_acknowledged m address vs ha h pos few =
    rw
      (
        serve_write m address vs ha h pos few,
        mod-eq_of_lt {n = length vs} {m = 65536} (omega arith),
      )
      (acknowledged address (length vs) ha (omega arith))

-- For each data model and each uint16 address, 1 to 123 uint16 values that one request of the
-- master writes come back in its next read: both requests are built, the write is acknowledged with
-- its address and count, and the read parses to the values.
pub read_registers-write_registers :
    (m : DataModel) (address : ℕ) (vs : List ℕ)
    → IsU16 address
    → All IsU16 vs
    → 0 < length vs
    → length vs ≤ 123
    → (w r : Pdu) × (build_write_multiple_registers_request address vs ≡ ok w)
      × (build_read_request Pdu.read_holding_registers address (length vs) ≡ ok r)
      × (let (response, m') = serve w m in
          let answer = (serve r m').0.pdu in
          (parse_response response.pdu
            ≡ ok (record (plain response.pdu) { address = address; quantity = length vs }))
          × (parse_response answer ≡ ok (record (plain answer) { values = vs })))
read_registers-write_registers m address vs ha h pos few = (
  write_request address vs,
  read_request address (length vs),
  built_write,
  built_read,
  (write_acknowledged m address vs ha h pos few, read_back),
)
  where
    wide : IsU16 (length vs)
    wide = omega arith

    nz : length vs ≢ 0
    nz = omega arith

    built_write : build_write_multiple_registers_request address vs ≡ ok (write_request address vs)
    built_write = unfold build_write_multiple_registers_request in ground arith

    built_read :
        build_read_request Pdu.read_holding_registers address (length vs)
        ≡ ok (read_request address (length vs))
    built_read = unfold build_read_request in ground arith

    read_back :
        let answer =
          (serve (read_request address (length vs)) (serve (write_request address vs) m).1).0.pdu in
        parse_response answer ≡ ok (record (plain answer) { values = vs })
    read_back =
        rw
          (
            serve_write m address vs ha h pos few,
            serve_read_holding (written m address vs) address (length vs) ha wide nz,
            read_loop-write_loop 0 m.holding_registers address 0 vs (omega arith),
          )
          (unfold normal_response in parse_register_read_lem vs h (omega arith))

byte_count_wraps :
    (vs : List ℕ)
    → 127 < length vs
    → parse_response (register_read_response Pdu.read_holding_registers vs)
      ≡ err register_read_count
unfolding parse_response parse_register_read register_read_response
byte_count_wraps vs over = ground (arith, length-u16s_to_bytes vs)

-- A read of more than 127 holding registers, with address and quantity uint16, is answered with a
-- byte count that has wrapped round, so that the master refuses the answer for its count.
pub read_registers_over_limit :
    (m : DataModel) (address quantity : ℕ)
    → IsU16 address
    → IsU16 quantity
    → 127 < quantity
    → parse_response (serve (read_request address quantity) m).0.pdu ≡ err register_read_count
unfolding normal_response
read_registers_over_limit m address quantity ha hq over =
    rw (serve_read_holding m address quantity ha hq (omega arith)) (
      byte_count_wraps (read_loop 0 m.holding_registers address 0 quantity)
        (omega (arith, length-read_loop 0 m.holding_registers address 0 quantity)))
