-- ===== src/Modbus/Address.antt =====
-- `ProtocolAddress` of modbus/protocol.go: user-interface addresses to protocol offsets.
use mocktrue.Base.{
  ℕ, ◌+◌, ◌-◌, ◌<◌, ◌≡◌, arith, refl, sym, ◌∙◌, ◌↔◌, [], Bool, false, ◌&&◌, ◌||◌, not,
}
use mocktrue.Base.{ltb, leb, ◌==◌, if◌then◌else◌, Text, codes, text_eq}
use mocktrue.Base.{Result, ok, err, ◌>>=◌, ◌>>◌, fail_if}
use mocktrue.Modbus.Pdu.{read_coils, read_discrete_inputs, read_holding_registers}
use mocktrue.Modbus.Pdu.{read_input_registers, write_single_coil, write_single_register}
use mocktrue.Modbus.Pdu.{write_multiple_coils, write_multiple_registers}

pub data Error : Type 0 where
  unsupported_mode unsupported_function below_base range_mismatch : Error

abbrev pub zero_based : Text
zero_based = codes "zero-based"

abbrev pub plc : Text
plc = codes "plc"

abbrev pub is_coil : ℕ → Bool
is_coil f = f == read_coils || f == write_single_coil || f == write_multiple_coils

abbrev pub is_holding : ℕ → Bool
is_holding f =
    f == read_holding_registers || f == write_single_register || f == write_multiple_registers

unfoldable pub plc_base : ℕ → Result Error ℕ
plc_base function =
    if is_coil function
    then ok 0
    else if function == read_discrete_inputs
    then ok 10000
    else if function == read_input_registers
    then ok 30000
    else if is_holding function
    then ok 40000
    else err unsupported_function

unfoldable pub plc_range_matches : ℕ → ℕ → Bool
plc_range_matches function input =
    if is_coil function
    then leb 1 input && ltb input 10000
    else if function == read_discrete_inputs
    then leb 10001 input && ltb input 20000
    else if function == read_input_registers
    then leb 30001 input && ltb input 40000
    else if is_holding function
    then leb 40001 input && ltb input 50000
    else false

-- The PLC branch. `input - base - 1` is computed only where `base + 1 ≤ input`.
unfoldable pub plc_address : ℕ → ℕ → Result Error ℕ
plc_address function input = do
  base ← plc_base function
  fail_if (ltb input (base + 1)) below_base
  fail_if (not (plc_range_matches function input)) range_mismatch
  ok (input - base - 1)

unfoldable pub protocol_address : Text → ℕ → ℕ → Result Error ℕ
protocol_address mode function input =
    if text_eq mode [] || text_eq mode zero_based
    then ok input
    else if not (text_eq mode plc)
    then err unsupported_mode
    else plc_address function input

plc_mode : (function input : ℕ) → protocol_address plc function input ≡ plc_address function input
unfolding protocol_address text_eq
plc_mode function input = refl

-- The range test is the test of 9999 addresses from the base.
range_of_base :
    (f a b : ℕ) → plc_base f ≡ ok b → plc_range_matches f a ≡ (leb (b + 1) a && ltb a (b + 10000))
unfolding plc_base plc_range_matches
range_of_base f a b e = ground arith

-- With a supported function, a PLC address is accepted exactly if it is one of the 9999 that follow
-- the function's base, and the offset counts from the first of them.
pub protocol_address-plc :
    (function input offset base : ℕ)
    → plc_base function ≡ ok base
    → (protocol_address plc function input ≡ ok offset)
      ↔ ((input ≡ base + offset + 1) × (offset < 9999))
unfolding plc_address
protocol_address-plc f a o b e =
    (λ p. accepted (sym (plc_mode f a) ∙ p), λ q. plc_mode f a ∙ accepts q)
  where
    accepted : plc_address f a ≡ ok o → (a ≡ b + o + 1) × (o < 9999)
    accepted p = ground (arith, range_of_base f a b e)

    accepts : (a ≡ b + o + 1) × (o < 9999) → plc_address f a ≡ ok o
    accepts q = ground (arith, range_of_base f a b e)
