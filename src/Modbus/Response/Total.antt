-- ===== src/Modbus/Response/Total.antt =====
-- `ParseResponse` of modbus/protocol.go stays within the bytes that it is given.
use mocktrue.Base.{
  ◌%◌, refl, ℕ, ◌*◌, ◌≡◌, ◌≢◌, List, [], ◌∷◌, length, Bool-cases, inl, inr, ◌==◌, not, ◌||◌,
}
use mocktrue.Base.{arith, Result, err, Bool, true, false, if◌then◌else◌}
use mocktrue.Modbus.Pdu.{Pdu}
use mocktrue.Modbus.Bits.Laws.{unpack_bits-in_range}
use mocktrue.Modbus.Response.{
  Error, ParsedResponse, panic, unsupported_response, parse_exception, parse_bit_read,
  parse_register_read, parse_single_write, parse_multiple_write, parse_response,
}

parse_exception_ends : (pdu : Pdu) (payload : List ℕ) → parse_exception pdu payload ≢ err panic
unfolding parse_exception
parse_exception_ends pdu [] = λ e. cc
parse_exception_ends pdu (c ∷ []) = λ e. cc
parse_exception_ends pdu (c ∷ d ∷ rest) = λ e. cc

parse_bit_read_ends : (pdu : Pdu) (payload : List ℕ) → parse_bit_read pdu payload ≢ err panic
unfolding parse_bit_read
parse_bit_read_ends pdu [] = λ e. cc
parse_bit_read_ends pdu (n ∷ rest) = elim (Bool-cases (length rest == n)) [
  | inr o ↦ rw (parse_bit_read, o) (λ e. cc)
  | inl s ↦
      let (bs, e) = unpack_bits-in_range rest (n * 8) (ground arith) in
      rw (parse_bit_read, s, e) (λ q. cc)
]

parse_register_read_ends :
    (pdu : Pdu) (payload : List ℕ) → parse_register_read pdu payload ≢ err panic
unfolding parse_register_read
parse_register_read_ends pdu [] = λ e. cc
parse_register_read_ends pdu (n ∷ rest) =
    elim (Bool-cases (not (n % 2 == 0) || not (length rest == n))) [
      | inl b ↦ rw (parse_register_read, b) (λ e. cc)
      | inr b ↦ rw (parse_register_read, b) (λ e. cc)
    ]

parse_single_write_ends :
    (pdu : Pdu) (payload : List ℕ) → parse_single_write pdu payload ≢ err panic
unfolding parse_single_write
parse_single_write_ends pdu [] = λ e. cc
parse_single_write_ends pdu (a ∷ []) = λ e. cc
parse_single_write_ends pdu (a ∷ b ∷ []) = λ e. cc
parse_single_write_ends pdu (a ∷ b ∷ c ∷ []) = λ e. cc
parse_single_write_ends pdu (a ∷ b ∷ c ∷ d ∷ []) = λ e. cc
parse_single_write_ends pdu (a ∷ b ∷ c ∷ d ∷ f ∷ rest) = λ e. cc

parse_multiple_write_ends :
    (pdu : Pdu) (payload : List ℕ) → parse_multiple_write pdu payload ≢ err panic
unfolding parse_multiple_write
parse_multiple_write_ends pdu [] = λ e. cc
parse_multiple_write_ends pdu (a ∷ []) = λ e. cc
parse_multiple_write_ends pdu (a ∷ b ∷ []) = λ e. cc
parse_multiple_write_ends pdu (a ∷ b ∷ c ∷ []) = λ e. cc
parse_multiple_write_ends pdu (a ∷ b ∷ c ∷ d ∷ []) = λ e. cc
parse_multiple_write_ends pdu (a ∷ b ∷ c ∷ d ∷ f ∷ rest) = λ e. cc

either_ends :
    (b : Bool) (x y : Result Error ParsedResponse)
    → x ≢ err panic
    → y ≢ err panic
    → (if b then x else y) ≢ err panic
either_ends true x y h k = h
either_ends false x y h k = k

unsupported_ends : (r : Result Error ParsedResponse) → r ≡ err unsupported_response → r ≢ err panic
unsupported_ends r e h = absurd cc

-- Whatever the bytes of a response, ParseResponse does not meet the panic of unpackBits, an index
-- beyond the bytes.
pub parse_response_ends : (pdu : Pdu) → parse_response pdu ≢ err panic
unfolding parse_response
parse_response_ends pdu = either_ends _ _ _ (parse_exception_ends pdu payload) (
    either_ends _ _ _ (parse_bit_read_ends pdu payload) (
      either_ends _ _ _ (parse_register_read_ends pdu payload) (
        either_ends _ _ _ (parse_single_write_ends pdu payload)
          (either_ends _ _ _ (parse_multiple_write_ends pdu payload) (unsupported_ends _ refl)))))
  where
    open pdu use {payload}
