-- ===== src/Modbus/Words.antt =====
-- The byte helpers of modbus/protocol.go. A byte is a number below 256, a uint16 one below 65536.
use mocktrue.Base.{ℕ, ◌+◌, ◌*◌, ◌/◌, ◌%◌, ◌<◌, ◌≡◌, refl, arith, bit_or, List, [], ◌∷◌, ◌++◌}
use mocktrue.Base.{length, All}
use mocktrue.Base.Bits.{bit_or_fields, bit_or_fields_low}
use mocktrue.Base.Hex.{IsByte}

abbrev pub IsU16 : ℕ → Type 0
IsU16 v = v < 65536

-- `byte(value >> 8)` and `byte(value)`
abbrev pub hi : ℕ → ℕ
hi v = v / 256 % 256

abbrev pub lo : ℕ → ℕ
lo v = v % 256

unfoldable pub u16 : ℕ → List ℕ
u16 value = hi value ∷ lo value ∷ []

unfoldable pub u16_pair : ℕ → ℕ → List ℕ
u16_pair first second = hi first ∷ lo first ∷ hi second ∷ lo second ∷ []

-- `uint16(data[0])<<8 | uint16(data[1])`; every caller has checked that the two bytes are there.
unfoldable pub be_u16 : ℕ → ℕ → ℕ
be_u16 h l = bit_or (h * 256 % 65536) l

-- `uint16(a) | uint16(b)<<8`, as the checksums are read.
unfoldable pub le_u16 : ℕ → ℕ → ℕ
le_u16 l h = bit_or l (h * 256 % 65536)

unfoldable pub bytes_to_u16s : List ℕ → List ℕ
bytes_to_u16s (h ∷ l ∷ rest) = be_u16 h l ∷ bytes_to_u16s rest
bytes_to_u16s (h ∷ []) = []
bytes_to_u16s [] = []

-- `for _, value := range values { data = append(data, u16(value)...) }`
unfoldable pub u16s_to_bytes : List ℕ → List ℕ
u16s_to_bytes [] = []
u16s_to_bytes (v ∷ vs) = u16 v ++ u16s_to_bytes vs

pub be_u16_value : (h l : ℕ) → IsByte h → IsByte l → be_u16 h l ≡ h * 256 + l
unfolding be_u16
be_u16_value h l hh hl = ground (arith, bit_or_fields 8 h l hl)

pub le_u16_value : (l h : ℕ) → IsByte l → IsByte h → le_u16 l h ≡ h * 256 + l
unfolding le_u16
le_u16_value l h hl hh = ground (arith, bit_or_fields_low 8 h l hl)

pub be_u16-hi : (v : ℕ) → IsU16 v → be_u16 (hi v) (lo v) ≡ v
be_u16-hi v h = omega (arith, be_u16_value (hi v) (lo v) (omega arith) (omega arith))

pub le_u16-lo : (v : ℕ) → IsU16 v → le_u16 (lo v) (hi v) ≡ v
le_u16-lo v h = omega (arith, le_u16_value (lo v) (hi v) (omega arith) (omega arith))

pub be_u16-IsU16 : (h l : ℕ) → IsByte h → IsByte l → IsU16 (be_u16 h l)
be_u16-IsU16 h l hh hl = omega (arith, be_u16_value h l hh hl)

pub bytes_to_u16s-u16s_to_bytes :
    (vs : List ℕ) → All IsU16 vs → bytes_to_u16s (u16s_to_bytes vs) ≡ vs
unfolding bytes_to_u16s u16s_to_bytes u16
bytes_to_u16s-u16s_to_bytes [] h = refl
bytes_to_u16s-u16s_to_bytes (v ∷ vs) h =
    ground (arith, be_u16-hi v h.0, bytes_to_u16s-u16s_to_bytes vs h.1)

pub length-u16s_to_bytes : (vs : List ℕ) → length (u16s_to_bytes vs) ≡ 2 * length vs
unfolding u16s_to_bytes u16
length-u16s_to_bytes [] = refl
length-u16s_to_bytes (v ∷ vs) = omega (arith, length-u16s_to_bytes vs)

pub u16s_to_bytes-IsByte : (vs : List ℕ) → All IsByte (u16s_to_bytes vs)
unfolding u16s_to_bytes u16
u16s_to_bytes-IsByte [] = tt
u16s_to_bytes-IsByte (v ∷ vs) = (omega arith, (omega arith, u16s_to_bytes-IsByte vs))
