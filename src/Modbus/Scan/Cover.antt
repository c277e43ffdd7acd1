-- ===== src/Modbus/Scan/Cover.antt =====
-- The chunks of a register scan of modbus/session.go.
use mocktrue.Base.{
  ℕ, zero, suc, ◌+◌, ◌-◌, ◌%◌, ◌<◌, ◌≤◌, ◌≡◌, ◌⊎◌, refl, ◌∙◌, List, [], ◌∷◌, ◌++◌, Bool, true,
  false, Option,
}
use mocktrue.Base.{ltb, ltb-false, ◌==◌, ◌||◌, ok, Bool-cases, inl, inr, arith}
use mocktrue.Modbus.Scan.{ScanRange, ScanResult, read_values, is_none}
use mocktrue.Modbus.Scan.{scan_quantity, scan_loop, chunk_size, scan_function, scan_registers}
use mocktrue.Modbus.Pdu.{read_holding_registers, read_input_registers}

-- The ranges follow on each other from `a` to `e`, each with 1 to 125 registers.
abbrev pub Tiles : ℕ → ℕ → List ScanRange → Type 0
Tiles a e [] = a ≡ e + 1
Tiles a e (r ∷ rs) =
    (r.address ≡ a) × (1 ≤ r.quantity) × (r.quantity ≤ 125) × Tiles (a + r.quantity) e rs

module _ {S : Type 0} (read : S → ℕ → ℕ → Option (List ℕ) × S) (chunk end : ℕ)
    (some_chunk : 1 ≤ chunk) (few : chunk ≤ 125) (short : end < 65536) where
  pub quantity_bounds :
      (a : ℕ)
      → a ≤ end
      → let q = scan_quantity read chunk end a in (1 ≤ q) × (q ≤ 125) × (a + q ≤ end + 1)
  unfolding scan_quantity
  quantity_bounds a h = ground arith

  pub ends : ℕ → ℕ → Bool
  ends a q = let next = (a + q) % 65536 in next == 0 || ltb end next

  pub ends_true : (a q : ℕ) → 1 ≤ q → a + q ≤ end + 1 → ends a q ≡ true → a + q ≡ end + 1
  unfolding ends
  ends_true a q lo hi e = ground arith

  pub ends_false :
      (a q : ℕ)
      → 1 ≤ q
      → a + q ≤ end + 1
      → ends a q ≡ false
      → (a + q ≤ end) × ((a + q) % 65536 ≡ a + q)
  unfolding ends
  ends_false a q lo hi e = ground arith

  -- The result of a round that is the last, and of one that is followed by others.
  unfoldable pub one_range : S → ℕ → ScanResult
  one_range s a =
      let q = scan_quantity read chunk end a in
      let registers = (read s a q).0 in
      record {
        ranges = record { address = a; quantity = q; failed = is_none registers } ∷ [];
        values = read_values a registers;
      }

  unfoldable pub joined : ScanResult → ScanResult → ScanResult
  joined r r' = record { ranges = r.ranges ++ r'.ranges; values = r.values ++ r'.values }

  pub last_round :
      (fuel : ℕ) (s : S) (a : ℕ)
      → ends a (scan_quantity read chunk end a) ≡ true
      → scan_loop read chunk end (suc fuel) s a ≡ ok (one_range s a)
  unfolding scan_loop ends one_range
  last_round fuel s a e = rw (scan_loop, e) refl

  pub other_round :
      (fuel : ℕ) (s : S) (a : ℕ) (r : ScanResult)
      → ends a (scan_quantity read chunk end a) ≡ false
      → (a + scan_quantity read chunk end a) % 65536 ≡ a + scan_quantity read chunk end a
      → scan_loop read chunk end fuel
          (read s a (scan_quantity read chunk end a)).1
          (a + scan_quantity read chunk end a)
        ≡ ok r
      → scan_loop read chunk end (suc fuel) s a ≡ ok (joined (one_range s a) r)
  unfolding scan_loop ends one_range joined
  other_round fuel s a r e same rest = rw (scan_loop, e, same, rest) refl

  scan_loop-Tiles :
      (fuel : ℕ) (s : S) (a : ℕ)
      → a ≤ end
      → end < a + fuel
      → (r : ScanResult) × (scan_loop read chunk end fuel s a ≡ ok r) × Tiles a end r.ranges
  unfolding one_range joined
  scan_loop-Tiles zero s a h f = absurd (omega arith)
  scan_loop-Tiles (suc fuel) s a h f =
      let q = scan_quantity read chunk end a in
      let (lo, hi, within) = quantity_bounds a h in
      elim (Bool-cases (ends a q)) [
        | inl e ↦ (one_range s a, last_round fuel s a e, (refl, lo, hi, ends_true a q lo within e))
        | inr e ↦
            let (more, same) = ends_false a q lo within e in
            let (r, eq, tiles) = scan_loop-Tiles fuel (read s a q).1 (a + q) more (omega arith) in
            (joined (one_range s a) r, other_round fuel s a r e same eq, (refl, lo, hi, tiles))
      ]

pub chunk_bounds : (chunk : ℕ) → (1 ≤ chunk_size chunk) × (chunk_size chunk ≤ 125)
unfolding chunk_size
chunk_bounds chunk = ground arith

abbrev pub IsRegisterRead : ℕ → Type 0
IsRegisterRead function =
    (function ≡ 0) ⊎ ((function ≡ read_holding_registers) ⊎ (function ≡ read_input_registers))

pub guarded :
    {S : Type 0} (read : ℕ → S → ℕ → ℕ → Option (List ℕ) × S) (s : S) (function start end chunk : ℕ)
    → IsRegisterRead function
    → start ≤ end
    → scan_registers read s function start end chunk
      ≡ scan_loop (read (scan_function function)) (chunk_size chunk) end (end - start + 1) s start
unfolding scan_registers scan_function
guarded read s function start end chunk rd le = ground (arith, ltb-false end start le)

-- A scan of a range of register addresses comes to its end, whatever the device answers: the chunks
-- that it reads follow on each other from the first address to the last, the last of all (65535)
-- included, and each has 1 to 125 registers.
pub scan_registers-Tiles :
    {S : Type 0} (read : ℕ → S → ℕ → ℕ → Option (List ℕ) × S) (s : S) (function start end chunk : ℕ)
    → IsRegisterRead function
    → start ≤ end
    → end < 65536
    → (r : ScanResult) × (scan_registers read s function start end chunk ≡ ok r)
      × Tiles start end r.ranges
unfolding scan_registers scan_function
scan_registers-Tiles read s function start end chunk rd le short =
    let (lo, hi) = chunk_bounds chunk in
    let (r, eq, tiles) =
      scan_loop-Tiles (read (scan_function function)) (chunk_size chunk) end lo hi short
        (end - start + 1) s start le (omega arith) in
    (r, guarded read s function start end chunk rd le ∙ eq, tiles)
