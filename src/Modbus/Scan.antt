-- ===== src/Modbus/Scan.antt =====
-- `scanRegisters` of modbus/session.go: a range of registers is read in chunks, and those that are
-- not zero are listed.
pub mod Cover
pub mod Values
mod Tests
use mocktrue.Base.{
  ℕ, zero, suc, ◌+◌, ◌-◌, ◌%◌, ◌^◌, List, [], ◌∷◌, ◌++◌, Bool, true, false, Option, none, some,
}
use mocktrue.Base.{ltb, ◌==◌, not, ◌&&◌, ◌||◌, if◌then◌else◌, Result, ok, err}
use mocktrue.Modbus.Pdu.{read_holding_registers, read_input_registers}

-- The errors of the function; `out_of_fuel` has no counterpart in the code.
pub data Error : Type 0 where
  unsupported_function end_before_start out_of_fuel : Error

pub record ScanRange : Type 0 where
  pub address : ℕ
  pub quantity : ℕ
  pub failed : Bool

pub record ScanValue : Type 0 where
  pub address : ℕ
  pub value : ℕ

pub record ScanResult : Type 0 where
  pub ranges : List ScanRange
  pub values : List ScanValue

-- `for i, value := range read.RawRegisters`
unfoldable pub nonzero_values : ℕ → ℕ → List ℕ → List ScanValue
nonzero_values address i [] = []
nonzero_values address i (value ∷ rest) =
    let more = nonzero_values address (i + 1) rest in
    if not (value == 0)
    then record { address = (address + i % 65536) % 65536; value = value } ∷ more
    else more

abbrev pub read_values : ℕ → Option (List ℕ) → List ScanValue
read_values address none = []
read_values address (some registers) = nonzero_values address 0 registers

abbrev pub is_none : Option (List ℕ) → Bool
is_none none = true
is_none (some _) = false

abbrev pub put_range :
    ScanRange → List ScanValue → Result Error ScanResult → Result Error ScanResult
put_range range values (ok r) = ok record { ranges = range ∷ r.ranges; values = values ++ r.values }
put_range range values (err e) = err e

-- `read` is `readRegisters` in a state of the session: the registers, or nothing where it fails.
module _ {S : Type 0} (read : S → ℕ → ℕ → Option (List ℕ) × S) (chunk end : ℕ) where
  -- The number of registers to read at an address.
  unfoldable pub scan_quantity : ℕ → ℕ
  scan_quantity address =
      let remaining = (end + 2 ^ 32 - address + 1) % 2 ^ 32 in
      if ltb remaining chunk then remaining % 65536 else chunk

  unfoldable pub scan_loop : ℕ → S → ℕ → Result Error ScanResult
  scan_loop zero s address = err out_of_fuel
  scan_loop (suc fuel) s address =
      let quantity = scan_quantity address in
      let (registers, s') = read s address quantity in
      let range : ScanRange = record {
        address = address;
        quantity = quantity;
        failed = is_none registers;
      } in
      let values = read_values address registers in
      let next = (address + quantity) % 65536 in
      let more = scan_loop fuel s' next in
      if next == 0 || ltb end next
      then ok record { ranges = range ∷ []; values = values }
      else put_range range values more

unfoldable pub chunk_size : ℕ → ℕ
chunk_size chunk = if chunk == 0 then 16 else if ltb 125 chunk then 125 else chunk

-- A function code of 0 stands for the holding registers.
unfoldable pub scan_function : ℕ → ℕ
scan_function function = if function == 0 then read_holding_registers else function

unfoldable pub scan_registers :
    {S : Type 0}
    → (ℕ → S → ℕ → ℕ → Option (List ℕ) × S)
    → S
    → ℕ
    → ℕ
    → ℕ
    → ℕ
    → Result Error ScanResult
scan_registers read s function start end chunk =
    let f = scan_function function in
    if not (f == read_holding_registers) && not (f == read_input_registers)
    then err unsupported_function
    else if ltb end start
    then err end_before_start
    else scan_loop (read f) (chunk_size chunk) end (end - start + 1) s start
