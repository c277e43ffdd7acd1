-- ===== src/Modbus/Bits/Laws.antt =====
-- Unpacking what was packed.
use mocktrue.Base.{ℕ, zero, suc, ◌+◌, ◌*◌, ◌/◌, ◌%◌, ◌^◌, ◌<◌, ◌≤◌, ◌≡◌, refl, ap, ◌∙◌, arith}
use mocktrue.Base.{some, List, [], ◌∷◌, Bool, true, false, ◌||◌, ◌&&◌, bit_or}
use mocktrue.Base.{◌==◌, length, get_or, replicate, take, All, All-set, All-get_or}
use mocktrue.Base.{length-set, length-replicate, get_or-replicate, get_or-set_self, get_or-set_ne}
use mocktrue.Base.Hex.{IsByte}
use mocktrue.Base.Bits.{has_bit, has_bit-zero, has_bit-bit_or, bit_or-lt}
use mocktrue.Modbus.Bits.{set_bit, pack_loop, pack_bits, bit_at, unpack_loop, unpack_bits}
use native.Mathlib.Decide.{ℕ_discrete}

-- Bit `i` of the bytes, which reads as 0 beyond them.
pub bit_of : List ℕ → ℕ → Bool
bit_of bytes i = has_bit (get_or bytes (i / 8) 0) (i % 8)

-- The values in `n` places, filled up with `false`.
pub pad : List Bool → ℕ → List Bool
pad vs zero = []
pad [] (suc n) = false ∷ pad [] n
pad (v ∷ vs) (suc n) = v ∷ pad vs n

-- The mask of one bit is a byte.
mask-IsByte : (k : ℕ) → k < 8 → IsByte (2 ^ k)
mask-IsByte zero h = omega arith
mask-IsByte (suc zero) h = omega arith
mask-IsByte (suc (suc zero)) h = omega arith
mask-IsByte (suc (suc (suc zero))) h = omega arith
mask-IsByte (suc (suc (suc (suc zero)))) h = omega arith
mask-IsByte (suc (suc (suc (suc (suc zero))))) h = omega arith
mask-IsByte (suc (suc (suc (suc (suc (suc zero)))))) h = omega arith
mask-IsByte (suc (suc (suc (suc (suc (suc (suc zero))))))) h = omega arith
mask-IsByte (suc (suc (suc (suc (suc (suc (suc (suc k)))))))) h = absurd (omega arith)

length-set_bit : (out : List ℕ) (i : ℕ) → length (set_bit out i) ≡ length out
unfolding set_bit
length-set_bit out i = length-set out (i / 8) _

set_bit-IsByte : (out : List ℕ) (i : ℕ) → All IsByte out → All IsByte (set_bit out i)
unfolding set_bit
set_bit-IsByte out i h = All-set IsByte out (i / 8) _ h (
    bit_or-lt 8 _ _ (All-get_or IsByte out (i / 8) 0 h (omega arith))
      (mask-IsByte (i % 8) (omega arith)))

bit_of-set_bit :
    (out : List ℕ) (i j : ℕ)
    → All IsByte out
    → i / 8 < length out
    → bit_of (set_bit out i) j ≡ (i == j || bit_of out j)
unfolding set_bit bit_of
bit_of-set_bit out i j h hi = elim (ℕ_discrete (i / 8) (j / 8)) [
  | yes same ↦ ground (
    arith,
    get_or-set_self out (i / 8) (bit_or (get_or out (i / 8) 0) (2 ^ (i % 8))) 0,
    has_bit-bit_or (get_or out (i / 8) 0) (i % 8) (j % 8),
    All-get_or IsByte out (i / 8) 0 h (omega arith),
  )
  | no other ↦ ground (
    arith,
    get_or-set_ne out (i / 8) (j / 8) (bit_or (get_or out (i / 8) 0) (2 ^ (i % 8))) 0 other,
  )
]

-- Whether the loop over `vs`, started at index `i`, sets bit `j`.
sets : List Bool → ℕ → ℕ → Bool
sets [] i j = false
sets (v ∷ vs) i j = (i == j && v) || sets vs (i + 1) j

bit_of-pack_loop :
    (vs : List Bool) (i j : ℕ) (out : List ℕ)
    → All IsByte out
    → i + length vs ≤ 8 * length out
    → bit_of (pack_loop vs i out) j ≡ (sets vs i j || bit_of out j)
unfolding pack_loop sets
bit_of-pack_loop [] i j out h fits = refl
bit_of-pack_loop (true ∷ vs) i j out h fits = ground (
  arith,
  bit_of-pack_loop vs (i + 1) j (set_bit out i) (set_bit-IsByte out i h),
  length-set_bit out i,
  bit_of-set_bit out i j h,
)
bit_of-pack_loop (false ∷ vs) i j out h fits = ground (arith, bit_of-pack_loop vs (i + 1) j out h)

sets_later : (vs : List Bool) (i j : ℕ) → j < i → sets vs i j ≡ false
unfolding sets
sets_later [] i j h = refl
sets_later (v ∷ vs) i j h = ground (arith, sets_later vs (i + 1) j)

sets_value : (vs : List Bool) (i k : ℕ) → sets vs i (i + k) ≡ get_or vs k false
unfolding sets
sets_value [] i k = refl
sets_value (v ∷ vs) i zero = ground (arith, sets_later vs (i + 1) i)
sets_value (v ∷ vs) i (suc k) =
    ground (arith, sets_value vs (i + 1) k, ap (λ t. sets vs (i + 1) t) (shift i k))
  where
    shift : (i k : ℕ) → i + suc k ≡ (i + 1) + k
    shift i k = omega arith

zeros : (n : ℕ) → All IsByte (replicate n 0)
zeros zero = tt
zeros (suc n) = (omega arith, zeros n)

bit_of-zeros : (n j : ℕ) → bit_of (replicate n 0) j ≡ false
unfolding bit_of
bit_of-zeros n j = rw (get_or-replicate {A = ℕ} n (j / 8) 0) (has_bit-zero (j % 8))

-- Bit `j` of the packed bytes is the value at `j`, and the bits past the values are clear.
pub bit_of-pack_bits : (vs : List Bool) (j : ℕ) → bit_of (pack_bits vs) j ≡ get_or vs j false
unfolding pack_bits
bit_of-pack_bits vs j = ground (
  arith,
  bit_of-pack_loop vs 0 j (replicate ((length vs + 7) / 8) 0) (zeros ((length vs + 7) / 8)),
  length-replicate {A = ℕ} ((length vs + 7) / 8) 0,
  bit_of-zeros ((length vs + 7) / 8) j,
  sets_value vs 0 j,
)

length-pack_loop :
    (vs : List Bool) (i : ℕ) (out : List ℕ) → length (pack_loop vs i out) ≡ length out
unfolding pack_loop
length-pack_loop [] i out = refl
length-pack_loop (true ∷ vs) i out =
    length-pack_loop vs (i + 1) (set_bit out i) ∙ length-set_bit out i
length-pack_loop (false ∷ vs) i out = length-pack_loop vs (i + 1) out

pub length-pack_bits : (vs : List Bool) → length (pack_bits vs) ≡ (length vs + 7) / 8
unfolding pack_bits
length-pack_bits vs = length-pack_loop vs 0 _ ∙ length-replicate ((length vs + 7) / 8) _

pack_loop-IsByte :
    (vs : List Bool) (i : ℕ) (out : List ℕ) → All IsByte out → All IsByte (pack_loop vs i out)
unfolding pack_loop
pack_loop-IsByte [] i out h = h
pack_loop-IsByte (true ∷ vs) i out h =
    pack_loop-IsByte vs (i + 1) (set_bit out i) (set_bit-IsByte out i h)
pack_loop-IsByte (false ∷ vs) i out h = pack_loop-IsByte vs (i + 1) out h

pub pack_bits-IsByte : (vs : List Bool) → All IsByte (pack_bits vs)
unfolding pack_bits
pack_bits-IsByte vs = pack_loop-IsByte vs 0 _ (zeros ((length vs + 7) / 8))

-- In range, the loop gives the bits one after another.
unpack_loop_lem :
    (n i : ℕ) (bytes : List ℕ) (ws : List Bool)
    → i + n ≤ 8 * length bytes
    → ((j : ℕ) → bit_of bytes (i + j) ≡ get_or ws j false)
    → unpack_loop bytes i n ≡ some (pad ws n)
unfolding unpack_loop bit_at bit_of pad
unpack_loop_lem zero i bytes ws fits h = refl
unpack_loop_lem (suc n) i bytes [] fits h =
    let here : bit_of bytes i ≡ false = ap (bit_of bytes) (omega arith) ∙ h 0 in
    let there =
      unpack_loop_lem n (i + 1) bytes [] (omega arith)
        (λ j. ap (bit_of bytes) (omega arith) ∙ h (suc j)) in
    ground (arith, here, there)
unpack_loop_lem (suc n) i bytes (w ∷ ws) fits h =
    let here : bit_of bytes i ≡ w = ap (bit_of bytes) (omega arith) ∙ h 0 in
    let there =
      unpack_loop_lem n (i + 1) bytes ws (omega arith)
        (λ j. ap (bit_of bytes) (omega arith) ∙ h (suc j)) in
    ground (arith, here, there)

-- Unpacking as many bits as the packed bytes have, or fewer, gives the values that were packed, then
-- `false`, and does not panic.
pub unpack_bits-pack_bits :
    (vs : List Bool) (count : ℕ)
    → count ≤ 8 * length (pack_bits vs)
    → unpack_bits (pack_bits vs) count ≡ some (pad vs count)
unfolding unpack_bits
unpack_bits-pack_bits vs count fits =
    unpack_loop_lem count 0 (pack_bits vs) vs (omega arith)
      (λ j. ap (bit_of (pack_bits vs)) (omega arith) ∙ bit_of-pack_bits vs j)

unpack_loop-in_range :
    (n i : ℕ) (bytes : List ℕ)
    → i + n ≤ 8 * length bytes
    → (bs : List Bool) × (unpack_loop bytes i n ≡ some bs)
unfolding unpack_loop bit_at
unpack_loop-in_range zero i bytes fits = ([], refl)
unpack_loop-in_range (suc n) i bytes fits =
    let (bs, e) = unpack_loop-in_range n (i + 1) bytes (omega arith) in
    (has_bit (get_or bytes (i / 8) 0) (i % 8) ∷ bs, ground (arith, e))

pub unpack_bits-in_range :
    (bytes : List ℕ) (count : ℕ)
    → count ≤ 8 * length bytes
    → (bs : List Bool) × (unpack_bits bytes count ≡ some bs)
unfolding unpack_bits
unpack_bits-in_range bytes count fits = unpack_loop-in_range count 0 bytes (omega arith)

pub take-pad : (vs : List Bool) (n : ℕ) → length vs ≤ n → take (length vs) (pad vs n) ≡ vs
unfolding pad
take-pad [] n h = refl
take-pad (v ∷ vs) zero h = absurd (omega arith)
take-pad (v ∷ vs) (suc n) h = ap (λ t. v ∷ t) (take-pad vs n (omega arith))

pub length-pad : (vs : List Bool) (n : ℕ) → length (pad vs n) ≡ n
unfolding pad
length-pad vs zero = refl
length-pad [] (suc n) = ap suc (length-pad [] n)
length-pad (v ∷ vs) (suc n) = ap suc (length-pad vs n)
