-- ===== src/Modbus/Slave/Coils.antt =====
-- Coil requests from the master's builder through `BuildSlaveResponse` to `ParseResponse`.
use mocktrue.Base.{ℕ, ◌+◌, ◌*◌, ◌/◌, ◌%◌, ◌<◌, ◌≤◌, ◌≡◌, ◌≢◌, refl, ap, arith}
use mocktrue.Base.{List, [], ◌∷◌, ◌++◌, Bool, true, false, not, some, length, ok, err}
use mocktrue.Base.{◌==◌, if◌then◌else◌, Bool-cases, inl, inr}
use mocktrue.Modbus.Words.{IsU16, u16, u16_pair, be_u16-hi}
use mocktrue.Modbus.Bits.{pack_bits, unpack_bits}
use mocktrue.Modbus.Bits.Laws.{pad, take-pad, length-pad, length-pack_bits, unpack_bits-pack_bits}
use mocktrue.Modbus.Pdu
use mocktrue.Modbus.Pdu.{Pdu, bytes}
use mocktrue.Modbus.DataModel
use mocktrue.Modbus.DataModel.{DataModel, put, write_loop, read_loop, write_coils}
use mocktrue.Modbus.DataModel.Laws.{
  read_loop-write_loop, length-read_loop, put_self, put_other, write_loop_one,
}
use mocktrue.Modbus.Request.{build_write_multiple_coils_request, build_read_request}
use mocktrue.Modbus.Request.{build_write_single_request}
use mocktrue.Modbus.Response.{plain, parse_response, parse_bit_read, parse_multiple_write}
use mocktrue.Modbus.Response.{bit_read_count}
use mocktrue.Modbus.Slave.{serve, serve_read, normal_response, serve_write_multiple_coils}
use mocktrue.Modbus.Slave.{serve_write_single_coil, bit_read_response, parse_multiple_coils}
use mocktrue.Modbus.Slave.Registers.{parse_address_quantity_lem}
use native.Mathlib.Nat.{mod-eq_of_lt}

-- The requests that the builders make for `vs` at `address`.
abbrev write_request : ℕ → List Bool → Pdu
write_request address vs = record {
  function = Pdu.write_multiple_coils;
  payload =
      u16 address ++ (u16 (length vs % 65536) ++ ((length (pack_bits vs) % 256) ∷ pack_bits vs));
}

abbrev pub read_request : ℕ → ℕ → Pdu
read_request address quantity = record {
  function = Pdu.read_coils;
  payload = u16_pair address quantity;
}

abbrev written : DataModel → ℕ → List Bool → DataModel
written m address vs = record m { coils = write_loop m.coils address 0 vs }

-- The parser unpacks the values and the padding; the caller takes the first `length vs`.
parse_coils_at :
    (address : ℕ) (vs : List Bool) (packed : List ℕ)
    → IsU16 address
    → 0 < length vs
    → length vs ≤ 1968
    → packed ≡ pack_bits vs
    → parse_multiple_coils
        (u16 address ++ (u16 (length vs % 65536) ++ ((length packed % 256) ∷ packed)))
      ≡ some (address, length vs, pad vs (length packed * 8))
unfolding parse_multiple_coils u16
parse_coils_at address vs [] ha pos few e = absurd (omega (arith, ap length e, length-pack_bits vs))
parse_coils_at address vs (p ∷ ps) ha pos few e = ground (
  arith,
  be_u16-hi address ha,
  be_u16-hi (length vs % 65536),
  ap length e,
  length-pack_bits vs,
  ap (λ t. unpack_bits t (length (p ∷ ps) * 8)) e,
  unpack_bits-pack_bits vs (length (p ∷ ps) * 8) (omega (arith, ap length e)),
  length-pad vs (length (p ∷ ps) * 8),
)

serve_write :
    (m : DataModel) (address : ℕ) (vs : List Bool)
    → IsU16 address
    → 0 < length vs
    → length vs ≤ 1968
    → serve (write_request address vs) m ≡ (
      normal_response (record {
        function = Pdu.write_multiple_coils;
        payload = u16_pair address (length vs % 65536);
      }),
      written m address vs,
    )
unfolding serve serve_write_multiple_coils write_coils DataModel.write_range
serve_write m address vs ha pos few = ground (
  arith,
  parse_coils_at address vs (pack_bits vs) ha pos few refl,
  take-pad vs (length (pack_bits vs) * 8) (omega (arith, length-pack_bits vs)),
)

serve-read_coils :
    (m : DataModel) (address quantity : ℕ)
    → IsU16 address
    → IsU16 quantity
    → quantity ≢ 0
    → serve (read_request address quantity) m ≡ (
      normal_response
          (bit_read_response Pdu.read_coils (read_loop false m.coils address 0 quantity)),
      m,
    )
unfolding serve serve_read DataModel.read_coils DataModel.read_range
serve-read_coils m address quantity ha hq nz =
    ground (arith, parse_address_quantity_lem address quantity ha hq nz)

parse_bit_read_lem :
    (vs : List Bool)
    → length vs ≤ 2040
    → let pdu = bit_read_response Pdu.read_coils vs in
      parse_response pdu ≡ ok (record (plain pdu) { bits = pad vs ((length vs + 7) / 8 * 8) })
unfolding parse_response parse_bit_read bit_read_response bytes
parse_bit_read_lem vs few = ground (
  arith,
  length-pack_bits vs,
  unpack_bits-pack_bits vs ((length vs + 7) / 8 * 8) (omega (arith, length-pack_bits vs)),
)

acknowledged :
    (address quantity : ℕ)
    → IsU16 address
    → IsU16 quantity
    → let pdu : Pdu = record {
      function = Pdu.write_multiple_coils;
      payload = u16_pair address quantity;
    } in
      parse_response pdu ≡ ok (record (plain pdu) { address = address; quantity = quantity })
unfolding parse_response parse_multiple_write u16_pair bytes
acknowledged address quantity ha hq = ground (arith, be_u16-hi address ha, be_u16-hi quantity hq)

module _ (m : DataModel) (address : ℕ) (vs : List Bool) (ha : IsU16 address) (pos : 0 < length vs)
    (few : length vs ≤ 1968) where
  write_acknowledged :
      let response = (serve (write_request address vs) m).0 in
      parse_response response.pdu
      ≡ ok (record (plain response.pdu) { address = address; quantity = length vs })
  unfolding normal_response
  write_acknowledged =
      rw
        (
          serve_write m address vs ha pos few,
          mod-eq_of_lt {n = length vs} {m = 65536} (omega arith),
        )
        (acknowledged address (length vs) ha (omega arith))

  read_back :
      let answer =
        (serve (read_request address (length vs)) (serve (write_request address vs) m).1).0.pdu in
      parse_response answer ≡ ok (record (plain answer) { bits = pad vs ((length vs + 7) / 8 * 8) })
  unfolding normal_response
  read_back =
      rw
        (
          serve_write m address vs ha pos few,
          serve-read_coils (written m address vs) address (length vs) ha (omega arith)
              (omega arith),
          read_loop-write_loop false m.coils address 0 vs (omega arith),
        )
        (parse_bit_read_lem vs (omega arith))

-- For each data model and each uint16 address, 1 to 1968 coils that one request of the master
-- writes come back in its next read: both requests are built, the write is acknowledged with its
-- address and count, and the read parses to the values, filled up with `false` to a whole number of
-- bytes.
pub read_coils-write_coils :
    (m : DataModel) (address : ℕ) (vs : List Bool)
    → IsU16 address
    → 0 < length vs
    → length vs ≤ 1968
    → (w r : Pdu) × (build_write_multiple_coils_request address vs ≡ ok w)
      × (build_read_request Pdu.read_coils address (length vs) ≡ ok r)
      × (let (response, m') = serve w m in
          let answer = (serve r m').0.pdu in
          (parse_response response.pdu
            ≡ ok (record (plain response.pdu) { address = address; quantity = length vs }))
          × (parse_response answer
              ≡ ok (record (plain answer) { bits = pad vs ((length vs + 7) / 8 * 8) })))
unfolding build_write_multiple_coils_request build_read_request
read_coils-write_coils m address vs ha pos few = (
  write_request address vs,
  read_request address (length vs),
  ground arith,
  ground arith,
  (write_acknowledged m address vs ha pos few, read_back m address vs ha pos few),
)

byte_count_wraps :
    (vs : List Bool)
    → 2040 < length vs
    → parse_response (bit_read_response Pdu.read_coils vs) ≡ err bit_read_count
unfolding parse_response parse_bit_read bit_read_response
byte_count_wraps vs over = ground (arith, length-pack_bits vs)

-- A read of more than 2040 coils, with address and quantity uint16, is answered with a byte count
-- that has wrapped round, so that the master refuses the answer for its count.
pub read_coils_over_limit :
    (m : DataModel) (address quantity : ℕ)
    → IsU16 address
    → IsU16 quantity
    → 2040 < quantity
    → parse_response (serve (read_request address quantity) m).0.pdu ≡ err bit_read_count
unfolding normal_response
read_coils_over_limit m address quantity ha hq over =
    rw (serve-read_coils m address quantity ha hq (omega arith)) (
      byte_count_wraps (read_loop false m.coils address 0 quantity)
        (omega (arith, length-read_loop false m.coils address 0 quantity)))

abbrev single_request : ℕ → ℕ → Pdu
single_request address value = record {
  function = Pdu.write_single_coil;
  payload = u16_pair address (if not (value == 0) then 0xff00 else value);
}

serve_single :
    (m : DataModel) (address value : ℕ)
    → IsU16 address
    → serve (single_request address value) m ≡ (
      normal_response (single_request address value),
      record m { coils = put m.coils address (not (value == 0)) },
    )
unfolding serve serve_write_single_coil write_coils DataModel.write_range u16_pair
serve_single m address value ha = elim (Bool-cases (value == 0)) [
  | inl off ↦
      ground (arith, be_u16-hi address ha, be_u16-hi 0, write_loop_one m.coils address false ha)
  | inr on ↦
      ground (arith, be_u16-hi address ha, be_u16-hi 0xff00, write_loop_one m.coils address true ha)
]

-- A single coil at a uint16 address that the master's request writes is on in the model for each
-- value but 0 and off for 0, every other coil keeps its entry, and the answer is the request.
pub serve_single_coil :
    (m : DataModel) (address value : ℕ)
    → IsU16 address
    → (w : Pdu) × (build_write_single_request Pdu.write_single_coil address value ≡ ok w)
      × ((serve w m).1.coils address ≡ some (not (value == 0)))
      × ((k : ℕ) → address ≢ k → (serve w m).1.coils k ≡ m.coils k)
      × ((serve w m).0 ≡ normal_response w)
unfolding build_write_single_request
serve_single_coil m address value ha = (
  single_request address value,
  refl,
  rw (serve_single m address value ha) (put_self m.coils address (not (value == 0))),
  λ k ne. rw (serve_single m address value ha) (put_other m.coils address k (not (value == 0)) ne),
  rw (serve_single m address value ha),
)
