-- ===== src/Fecbus/Function.antt =====
-- fecbus/function.go: which function codes there are. The texts (hex form, name, description) of a
-- FunctionInfo are not modelled.
use mocktrue.Base.{
  ℕ, zero, suc, ◌+◌, ◌<◌, ◌≡◌, ◌≢◌, ◌↔◌, refl, arith, List, [], ◌∷◌, Bool, true, false,
}
use mocktrue.Base.{Option, none, some, ◌==◌, leb, not, ◌&&◌, ◌||◌, if◌then◌else◌}
use mocktrue.Base.Bits.{all_below, all_below_sound}

pub data Direction : Type 0 where
  controller_to_device device_to_controller bidirectional custom_direction no_direction : Direction

pub record FunctionInfo : Type 0 where
  pub code : ℕ
  pub direction : Direction
  pub answer : Bool
  pub custom : Bool
  pub reserved : Bool

abbrev named : ℕ → Direction → Bool → FunctionInfo
named code direction answer = record {
  code = code;
  direction = direction;
  answer = answer;
  custom = false;
  reserved = false;
}

abbrev named_functions : List FunctionInfo
named_functions =
    named 0x00 controller_to_device true
    ∷ named 0x01 controller_to_device true
    ∷ named 0x02 controller_to_device true
    ∷ named 0x03 controller_to_device true
    ∷ named 0x04 controller_to_device true
    ∷ named 0x05 controller_to_device true
    ∷ named 0x06 controller_to_device true
    ∷ named 0x07 controller_to_device true
    ∷ named 0x0f bidirectional false
    ∷ named 0x11 device_to_controller true
    ∷ named 0x12 device_to_controller true
    ∷ named 0x13 device_to_controller true
    ∷ named 0x14 device_to_controller true
    ∷ named 0x21 controller_to_device true
    ∷ named 0x22 controller_to_device true
    ∷ named 0x23 controller_to_device true
    ∷ named 0x24 controller_to_device true
    ∷ named 0x25 controller_to_device true
    ∷ named 0x26 controller_to_device true
    ∷ named 0x27 controller_to_device true
    ∷ named 0x28 controller_to_device true
    ∷ named 0x29 controller_to_device true
    ∷ named 0x2a controller_to_device true
    ∷ named 0x2b controller_to_device true
    ∷ named 0x2c controller_to_device true
    ∷ named 0x2d controller_to_device true
    ∷ []

find_function : List FunctionInfo → ℕ → Option FunctionInfo
find_function [] code = none
find_function (info ∷ rest) code = if info.code == code then some info else find_function rest code

is_custom_function : ℕ → Bool
is_custom_function value =
    (leb 8 value && leb value 14)
    || (leb 21 value && leb value 31)
    || (leb 46 value && leb value 127)

pub lookup_function : ℕ → FunctionInfo
unfolding find_function is_custom_function
lookup_function code = elim (find_function named_functions code) [
  | some info ↦ info
  | none ↦
      if is_custom_function code
      then record {
        code = code;
        direction = custom_direction;
        answer = true;
        custom = true;
        reserved = false;
      }
      else record {
        code = code;
        direction = no_direction;
        answer = false;
        custom = false;
        reserved = true;
      }
]

unfoldable pub is_function_allowed : ℕ → Bool
unfolding lookup_function
is_function_allowed code = not (lookup_function code).reserved

-- The loop of `FunctionCatalog` with `n` codes to go, from code `i` on.
catalog_from : ℕ → ℕ → List FunctionInfo
catalog_from i zero = []
catalog_from i (suc n) = lookup_function i ∷ catalog_from (i + 1) n

pub function_catalog : List FunctionInfo
function_catalog = catalog_from 0 256

abbrev expected : ℕ → Bool
expected code = leb code 127 && not (code == 16) && not (code == 32)

allowed_table :
    all_below 256 (λ c. if is_function_allowed c then expected c else not (expected c)) ≡ true
unfolding all_below is_function_allowed
allowed_table = refl

-- Of the codes below 256, those below 128 but 16 and 32 are allowed, and no others.
pub is_function_allowed_iff :
    (code : ℕ)
    → code < 256
    → (is_function_allowed code ≡ true) ↔ ((code < 128) × (code ≢ 16) × (code ≢ 32))
is_function_allowed_iff code h = (λ e. ground (arith, row), λ (a, b, c). ground (arith, row))
  where
    row : (if is_function_allowed code then expected code else not (expected code)) ≡ true
    row = all_below_sound 256 _ code allowed_table h

code_table : all_below 256 (λ c. (lookup_function c).code == c) ≡ true
unfolding all_below lookup_function
code_table = refl
