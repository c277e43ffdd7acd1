-- ===== src/Base/Hex.antt =====
-- `hex.EncodeToString` and `hex.DecodeString` of encoding/hex.
use Prim.Native.Nat.{ℕ, ◌+◌, ◌-◌, ◌*◌, ◌/◌, ◌%◌, ◌<◌}
use mathlib.Core.Path.{◌≡◌, refl}
use mathlib.Core.Bool.{◌&&◌}
use mathlib.Core.Option.{Option, none, some}
use mathlib.Core.List.{List, [], ◌∷◌, map}
use native.Mathlib.Omega.{arith}
use mocktrue.Base.Tests.{ltb, leb, if◌then◌else◌}
use mocktrue.Base.Lists.{length, All}
use mocktrue.Base.Strings.{Text, to_upper}

unfoldable pub hex_digit : ℕ → ℕ
hex_digit d = if ltb d 10 then d + b'0' else d + 87

pub from_hex_char : ℕ → Option ℕ
from_hex_char c =
    if leb b'0' c && leb c b'9'
    then some (c - b'0')
    else if leb b'a' c && leb c b'f'
    then some (c - 87)
    else if leb b'A' c && leb c b'F'
    then some (c - 55)
    else none

unfoldable pub encode_hex : List ℕ → Text
encode_hex [] = []
encode_hex (b ∷ bs) = hex_digit (b / 16) ∷ hex_digit (b % 16) ∷ encode_hex bs

-- Both digits of a byte, or none.
pub hex_pair : Option ℕ → Option ℕ → Option (List ℕ) → Option (List ℕ)
hex_pair (some h) (some l) (some bs) = some ((h * 16 + l) ∷ bs)
hex_pair none _ _ = none
hex_pair (some h) none _ = none
hex_pair (some h) (some l) none = none

pub decode_hex : Text → Option (List ℕ)
unfolding hex_pair
decode_hex [] = some []
decode_hex (_ ∷ []) = none
decode_hex (a ∷ b ∷ rest) = hex_pair (from_hex_char a) (from_hex_char b) (decode_hex rest)

abbrev pub IsByte : ℕ → Type 0
IsByte b = b < 256

from_hex_char-hex_digit : (d : ℕ) → d < 16 → from_hex_char (hex_digit d) ≡ some d
unfolding from_hex_char hex_digit
from_hex_char-hex_digit d h = ground arith

from_hex_char-to_upper : (d : ℕ) → d < 16 → from_hex_char (to_upper (hex_digit d)) ≡ some d
unfolding from_hex_char hex_digit to_upper
from_hex_char-to_upper d h = ground arith

pub decode_hex-encode_hex : (bs : List ℕ) → All IsByte bs → decode_hex (encode_hex bs) ≡ some bs
unfolding decode_hex encode_hex
decode_hex-encode_hex [] h = refl
decode_hex-encode_hex (b ∷ bs) h = ground (
  arith,
  from_hex_char-hex_digit (b / 16),
  from_hex_char-hex_digit (b % 16),
  decode_hex-encode_hex bs h.1,
)

-- The decoder takes either case.
pub decode_hex-to_upper :
    (bs : List ℕ) → All IsByte bs → decode_hex (map to_upper (encode_hex bs)) ≡ some bs
unfolding decode_hex encode_hex
decode_hex-to_upper [] h = refl
decode_hex-to_upper (b ∷ bs) h = ground (
  arith,
  from_hex_char-to_upper (b / 16),
  from_hex_char-to_upper (b % 16),
  decode_hex-to_upper bs h.1,
)

pub length-to_upper-encode_hex :
    (bs : List ℕ) → length (map to_upper (encode_hex bs)) ≡ 2 * length bs
unfolding encode_hex
length-to_upper-encode_hex [] = refl
length-to_upper-encode_hex (b ∷ bs) = omega (arith, length-to_upper-encode_hex bs)
