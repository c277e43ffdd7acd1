-- ===== src/Fecbus/HexText.antt =====
-- `ParseHex` and `FormatHex` of fecbus/protocol.go. `none` is the error of `hex.DecodeString`; a nil
-- slice is an empty one.
use mocktrue.Base.{
  ℕ, ◌/◌, ◌%◌, ◌<◌, ◌≡◌, refl, ap, arith, List, [], ◌∷◌, ◌++◌, Bool, false, ◌||◌, All,
}
use mocktrue.Base.{Option, some, ◌==◌, if◌then◌else◌, Text, length}
use mocktrue.Base.Hex.{hex_digit, encode_hex, decode_hex, IsByte, decode_hex-encode_hex}

abbrev is_space : ℕ → Bool
is_space c = c == b' ' || c == 10 || c == 9 || c == 13

-- The replacer that takes out blanks.
compact : Text → Text
compact [] = []
compact (c ∷ cs) = let rest = compact cs in if is_space c then rest else c ∷ rest

pub parse_hex : Text → Option (List ℕ)
parse_hex value = if length (compact value) == 0 then some [] else decode_hex (compact value)

-- `fmt.Sprintf("%02x", b)` of each byte, joined by blanks.
pub format_hex : List ℕ → Text
format_hex [] = []
format_hex (b ∷ []) = encode_hex (b ∷ [])
format_hex (b ∷ c ∷ bs) = encode_hex (b ∷ []) ++ (b' ' ∷ format_hex (c ∷ bs))

digit_kept : (d : ℕ) → d < 16 → is_space (hex_digit d) ≡ false
unfolding hex_digit
digit_kept d h = ground arith

compact-format_hex : (bs : List ℕ) → All IsByte bs → compact (format_hex bs) ≡ encode_hex bs
unfolding compact format_hex encode_hex
compact-format_hex [] h = refl
compact-format_hex (b ∷ []) h =
    rw (digit_kept (b / 16) (omega (arith, h.0)), digit_kept (b % 16) (omega arith)) refl
compact-format_hex (b ∷ c ∷ bs) h =
    rw (digit_kept (b / 16) (omega (arith, h.0)), digit_kept (b % 16) (omega arith))
      (ap (λ t. hex_digit (b / 16) ∷ hex_digit (b % 16) ∷ t) (compact-format_hex (c ∷ bs) h.1))

not_empty : (b : ℕ) (bs : List ℕ) → (length (encode_hex (b ∷ bs)) == 0) ≡ false
unfolding encode_hex
not_empty b bs = ground arith

-- Bytes that `FormatHex` prints are read back by `ParseHex`.
pub parse_hex-format_hex : (bs : List ℕ) → All IsByte bs → parse_hex (format_hex bs) ≡ some bs
unfolding parse_hex
parse_hex-format_hex [] h = rw (compact-format_hex [] h) (unfold encode_hex in refl)
parse_hex-format_hex (b ∷ bs) h =
    rw (compact-format_hex (b ∷ bs) h, not_empty b bs) (decode_hex-encode_hex (b ∷ bs) h)
