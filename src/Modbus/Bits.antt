-- ===== src/Modbus/Bits.antt =====
-- `packBits` and `unpackBits` of modbus/protocol.go: coils in bytes, lowest bit first.
pub mod Laws
use mocktrue.Base.{ℕ, zero, suc, ◌+◌, ◌*◌, ◌/◌, ◌%◌, ◌^◌, bit_or, List, [], ◌∷◌, Bool}
use mocktrue.Base.{Option, none, some, ltb, if◌then◌else◌, length, get_or, set, replicate}
use mocktrue.Base.Bits.{has_bit}

-- `out[i/8] |= 1 << uint(i%8)`
pub set_bit : List ℕ → ℕ → List ℕ
set_bit out i = set out (i / 8) (bit_or (get_or out (i / 8) 0) (2 ^ (i % 8)))

-- The loop over the values from index `i` on.
pub pack_loop : List Bool → ℕ → List ℕ → List ℕ
pack_loop [] i out = out
pack_loop (v ∷ vs) i out = pack_loop vs (i + 1) (if v then set_bit out i else out)

unfoldable pub pack_bits : List Bool → List ℕ
unfolding pack_loop set_bit
pack_bits values = pack_loop values 0 (replicate ((length values + 7) / 8) 0)

-- `data[i/8]&(1<<uint(i%8)) != 0`; an index that is out of range panics.
unfoldable pub bit_at : List ℕ → ℕ → Option Bool
bit_at bytes i =
    if ltb (i / 8) (length bytes) then some (has_bit (get_or bytes (i / 8) 0) (i % 8)) else none

-- The loop of `unpackBits` from index `i`, with `n` rounds to go.
unfoldable pub unpack_loop : List ℕ → ℕ → ℕ → Option (List Bool)
unpack_loop bytes i zero = some []
unpack_loop bytes i (suc n) =
    let rest = unpack_loop bytes (i + 1) n in
    elim (bit_at bytes i) [
      | none ↦ none
      | some b ↦ elim rest [ none ↦ none | some bs ↦ some (b ∷ bs) ]
    ]

-- `none` is the panic.
unfoldable pub unpack_bits : List ℕ → ℕ → Option (List Bool)
unpack_bits bytes count = unpack_loop bytes 0 count
