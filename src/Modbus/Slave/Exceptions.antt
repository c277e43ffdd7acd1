-- ===== src/Modbus/Slave/Exceptions.antt =====
-- The error branches of `BuildSlaveResponse`: what they answer, and that they change nothing.
use mocktrue.Base.{ℕ, ◌+◌, ◌%◌, ◌<◌, ◌≡◌, refl, arith, List, [], ◌∷◌, true}
use mocktrue.Base.{Option-cases, Bool-cases, Result-cases, ltb, Result, inl, inr, ok, ◌==◌, bit_and}
use mocktrue.Base.Bits.{bit_or_sign, bit_and_sign}
use mocktrue.Modbus.Pdu.{Pdu, bytes, exception_mask, illegal_function}
use mocktrue.Modbus.DataModel
use mocktrue.Modbus.DataModel.{DataModel, write_coils, write_holding_registers}
use mocktrue.Modbus.Response.{plain, parse_response, parse_exception, without_mask}
use mocktrue.Modbus.Slave.{SlaveResponse, serve, serve_read, normal_response, exception_response}
use mocktrue.Modbus.Slave.{serve_write_single_coil, serve_write_single_register}
use mocktrue.Modbus.Slave.{serve_write_multiple_coils, serve_write_multiple_registers}
use mocktrue.Modbus.Slave.{parse_multiple_coils, parse_multiple_registers, parse_address_quantity}
use mocktrue.Modbus.Slave.{bit_read_response, register_read_response}

-- What holds of each branch: an exception leaves the model alone.
abbrev Unchanged : DataModel → SlaveResponse × DataModel → Type 0
Unchanged m (r, m') = r.exception ≡ true → m' ≡ m

single_coil-Unchanged :
    (req : Pdu) (payload : List ℕ) (m : DataModel)
    → Unchanged m (serve_write_single_coil req payload m)
unfolding serve_write_single_coil exception_response normal_response
single_coil-Unchanged req [] m e = refl
single_coil-Unchanged req (a ∷ []) m e = refl
single_coil-Unchanged req (a ∷ b ∷ []) m e = refl
single_coil-Unchanged req (a ∷ b ∷ c ∷ []) m e = refl
single_coil-Unchanged req (a ∷ b ∷ c ∷ d ∷ []) m e = ground arith
single_coil-Unchanged req (a ∷ b ∷ c ∷ d ∷ x ∷ rest) m e = refl

single_register-Unchanged :
    (req : Pdu) (payload : List ℕ) (m : DataModel)
    → Unchanged m (serve_write_single_register req payload m)
unfolding serve_write_single_register exception_response normal_response
single_register-Unchanged req [] m e = refl
single_register-Unchanged req (a ∷ []) m e = refl
single_register-Unchanged req (a ∷ b ∷ []) m e = refl
single_register-Unchanged req (a ∷ b ∷ c ∷ []) m e = refl
single_register-Unchanged req (a ∷ b ∷ c ∷ d ∷ []) m e = ground arith
single_register-Unchanged req (a ∷ b ∷ c ∷ d ∷ x ∷ rest) m e = refl

multiple_coils-Unchanged :
    (req : Pdu) (m : DataModel) → Unchanged m (serve_write_multiple_coils req m)
unfolding serve_write_multiple_coils exception_response normal_response
multiple_coils-Unchanged req m e = ground (arith, Option-cases (parse_multiple_coils req.payload))

multiple_registers-Unchanged :
    (req : Pdu) (m : DataModel) → Unchanged m (serve_write_multiple_registers req m)
unfolding serve_write_multiple_registers exception_response normal_response
multiple_registers-Unchanged req m e =
    ground (arith, Option-cases (parse_multiple_registers req.payload))

-- A request that is answered by an exception leaves the data model as it was.
pub serve_exception_unchanged :
    (req : Pdu) (m : DataModel) → (serve req m).0.exception ≡ true → (serve req m).1 ≡ m
unfolding serve
serve_exception_unchanged req m e = ground (
  arith,
  single_coil-Unchanged req req.payload m,
  single_register-Unchanged req req.payload m,
  multiple_coils-Unchanged req m,
  multiple_registers-Unchanged req m,
)

-- The form of an exception for the function `g`.
abbrev Formed : ℕ → SlaveResponse → Type 0
Formed g r = r.exception ≡ true → r ≡ exception_response g r.exception_code

module _ {V : Type 0} (read : ℕ → ℕ → Result DataModel.Error (List V))
    (answer : ℕ → List V → Pdu) where
  read-Formed : (req : Pdu) → Formed req.function (serve_read req read answer)
  unfolding serve_read normal_response exception_response
  read-Formed req e = elim (Option-cases (parse_address_quantity req.payload)) [
    | inl p ↦ ground arith
    | inr ((address, quantity), p) ↦ ground (arith, Result-cases (read address quantity))
  ]

single_coil-Formed :
    (req : Pdu) (payload : List ℕ) (m : DataModel)
    → Formed req.function (serve_write_single_coil req payload m).0
unfolding serve_write_single_coil exception_response normal_response
single_coil-Formed req [] m e = refl
single_coil-Formed req (a ∷ []) m e = refl
single_coil-Formed req (a ∷ b ∷ []) m e = refl
single_coil-Formed req (a ∷ b ∷ c ∷ []) m e = refl
single_coil-Formed req (a ∷ b ∷ c ∷ d ∷ []) m e = ground arith
single_coil-Formed req (a ∷ b ∷ c ∷ d ∷ x ∷ rest) m e = refl

single_register-Formed :
    (req : Pdu) (payload : List ℕ) (m : DataModel)
    → Formed req.function (serve_write_single_register req payload m).0
unfolding serve_write_single_register exception_response normal_response
single_register-Formed req [] m e = refl
single_register-Formed req (a ∷ []) m e = refl
single_register-Formed req (a ∷ b ∷ []) m e = refl
single_register-Formed req (a ∷ b ∷ c ∷ []) m e = refl
single_register-Formed req (a ∷ b ∷ c ∷ d ∷ []) m e = ground arith
single_register-Formed req (a ∷ b ∷ c ∷ d ∷ x ∷ rest) m e = refl

multiple_coils-Formed :
    (req : Pdu) (m : DataModel) → Formed req.function (serve_write_multiple_coils req m).0
unfolding serve_write_multiple_coils exception_response normal_response
multiple_coils-Formed req m e = ground (arith, Option-cases (parse_multiple_coils req.payload))

multiple_registers-Formed :
    (req : Pdu) (m : DataModel) → Formed req.function (serve_write_multiple_registers req m).0
unfolding serve_write_multiple_registers exception_response normal_response
multiple_registers-Formed req m e =
    ground (arith, Option-cases (parse_multiple_registers req.payload))

unsupported-Formed : (g : ℕ) → Formed g (exception_response g illegal_function)
unfolding exception_response
unsupported-Formed g e = refl

without_mask_value : (f : ℕ) → f < 256 → without_mask f ≡ f % 128
unfolding without_mask
without_mask_value f h = omega (arith, bit_and_sign f h)

masked_iff : (f : ℕ) → f < 256 → (bit_and f exception_mask == 0) ≡ ltb f 128
masked_iff f h = ground (arith, bit_and_sign f h)

serve-Formed :
    (req : Pdu) (m : DataModel) → req.function < 256 → Formed (req.function % 128) (serve req m).0
unfolding serve
serve-Formed req m h e = elim (Bool-cases (ltb req.function 128)) [
  | inl low ↦ ground (
    arith,
    masked_iff req.function h,
    read-Formed (DataModel.read_coils m) bit_read_response req,
    read-Formed (DataModel.read_discrete_inputs m) bit_read_response req,
    read-Formed (DataModel.read_holding_registers m) register_read_response req,
    read-Formed (DataModel.read_input_registers m) register_read_response req,
    single_coil-Formed req req.payload m,
    single_register-Formed req req.payload m,
    multiple_coils-Formed req m,
    multiple_registers-Formed req m,
    unsupported-Formed req.function,
  )
  | inr high ↦ ground (
    arith,
    masked_iff req.function h,
    without_mask_value req.function h,
    unsupported-Formed (req.function % 128),
  )
]

parse_response-exception :
    (g : ℕ) (r : SlaveResponse)
    → g < 128
    → r ≡ exception_response g r.exception_code
    → parse_response r.pdu
      ≡ ok (record (plain r.pdu) {
        function = g;
        exception = true;
        exception_code = r.exception_code;
      })
unfolding parse_response parse_exception exception_response bytes
parse_response-exception g r h e =
    ground (arith, bit_or_sign g h, bit_and_sign (g + 128), without_mask_value (g + 128))

-- The master reads each exception with which the slave answers a request as one: for the requested
-- function, a byte, without the mask, and with the code that the slave chose.
pub parse_response-serve_exception :
    (req : Pdu) (m : DataModel)
    → req.function < 256
    → (serve req m).0.exception ≡ true
    → let r = (serve req m).0 in
      parse_response r.pdu
      ≡ ok (record (plain r.pdu) {
        function = req.function % 128;
        exception = true;
        exception_code = r.exception_code;
      })
parse_response-serve_exception req m h e =
    parse_response-exception (req.function % 128) (serve req m).0 (omega arith)
      (serve-Formed req m h e)
