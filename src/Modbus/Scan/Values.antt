-- ===== src/Modbus/Scan/Values.antt =====
-- The values that a register scan of modbus/session.go lists.
use mocktrue.Base.{
  ℕ, zero, suc, ◌+◌, ◌-◌, ◌%◌, ◌<◌, ◌≤◌, ◌≡◌, refl, ap, sym, ◌∙◌, List, [], ◌∷◌, ◌++◌, Option, some,
}
use mocktrue.Base.{◌==◌, not, if◌then◌else◌, ok, Bool-cases, inl, inr, arith}
use mocktrue.Modbus.Scan.{ScanValue, ScanResult, nonzero_values, read_values}
use mocktrue.Modbus.Scan.{scan_quantity, scan_loop, chunk_size, scan_function, scan_registers}
use mocktrue.Modbus.Scan.Cover.{
  quantity_bounds, ends, ends_true, ends_false, one_range, joined, last_round, other_round,
  chunk_bounds, IsRegisterRead, guarded,
}

-- The registers of a device, and those of them that are not zero.
abbrev pub cells : (ℕ → ℕ) → ℕ → ℕ → List ℕ
cells memory a zero = []
cells memory a (suc n) = memory a ∷ cells memory (a + 1) n

abbrev pub occupied : (ℕ → ℕ) → ℕ → ℕ → List ScanValue
occupied memory a zero = []
occupied memory a (suc n) =
    let rest = occupied memory (a + 1) n in
    if not (memory a == 0) then record { address = a; value = memory a } ∷ rest else rest

occupied-append :
    (memory : ℕ → ℕ) (a b n k m : ℕ)
    → m ≡ n + k
    → b ≡ a + n
    → occupied memory a m ≡ occupied memory a n ++ occupied memory b k
occupied-append memory a b zero k m e f =
    let e' : m ≡ k = omega arith in let f' : b ≡ a = omega arith in rw (e', f') refl
occupied-append memory a b (suc n) k zero e f = absurd (omega arith)
occupied-append memory a b (suc n) k (suc m) e f =
    let ih = occupied-append memory (a + 1) b n k m (omega arith) (omega arith) in
    elim (Bool-cases (memory a == 0)) [
      | inl z ↦ rw (occupied, z) ih
      | inr z ↦ rw (occupied, z, ih) refl
    ]

same_place : (a i b : ℕ) → b ≡ a + i → b < 65536 → (a + i % 65536) % 65536 ≡ b
same_place a i b e h = omega arith

nonzero_values-cells :
    (memory : ℕ → ℕ) (a i b n : ℕ)
    → b ≡ a + i
    → b + n ≤ 65536
    → nonzero_values a i (cells memory b n) ≡ occupied memory b n
unfolding nonzero_values
nonzero_values-cells memory a i b zero e h = refl
nonzero_values-cells memory a i b (suc n) e h =
    rw
      (
        same_place a i b e (omega arith),
        nonzero_values-cells memory a (i + 1) (b + 1) n (omega arith) (omega arith),
      )
      refl

append_both : {xs xs' ys ys' : List ScanValue} → xs ≡ xs' → ys ≡ ys' → xs ++ ys ≡ xs' ++ ys'
append_both p q = λ i. p i ++ q i

module _ {S : Type 0} (memory : ℕ → ℕ) (read : S → ℕ → ℕ → Option (List ℕ) × S) (chunk end : ℕ)
    (some_chunk : 1 ≤ chunk) (few : chunk ≤ 125) (short : end < 65536)
    (honest : (s : S) (a q : ℕ) → 1 ≤ q → q ≤ 125 → (read s a q).0 ≡ some (cells memory a q)) where
  here :
      (s : S) (a : ℕ)
      → a ≤ end
      → (one_range read chunk end some_chunk few short s a).values
        ≡ occupied memory a (scan_quantity read chunk end a)
  unfolding one_range
  here s a h =
      let q = scan_quantity read chunk end a in
      let (lo, hi, within) = quantity_bounds read chunk end some_chunk few short a h in
      ap (read_values a) (honest s a q lo hi)
      ∙ nonzero_values-cells memory a 0 a q (omega arith) (omega arith)

  scan_loop-occupied :
      (fuel : ℕ) (s : S) (a n : ℕ)
      → a + n ≡ end + 1
      → 1 ≤ n
      → end < a + fuel
      → (r : ScanResult) × (scan_loop read chunk end fuel s a ≡ ok r)
        × (r.values ≡ occupied memory a n)
  unfolding joined
  scan_loop-occupied zero s a n h p f = absurd (omega arith)
  scan_loop-occupied (suc fuel) s a n h p f =
      let q = scan_quantity read chunk end a in
      let (lo, hi, within) = quantity_bounds read chunk end some_chunk few short a (omega arith) in
      let first = one_range read chunk end some_chunk few short s a in
      let found = here s a (omega arith) in
      elim (Bool-cases (ends read chunk end some_chunk few short a q)) [
        | inl e ↦
            let last = ends_true read chunk end some_chunk few short a q lo within e in
            let exact : q ≡ n = omega arith in
            (
              first,
              last_round read chunk end some_chunk few short fuel s a e,
              found ∙ ap (occupied memory a) exact,
            )
        | inr e ↦
            let (more, same) = ends_false read chunk end some_chunk few short a q lo within e in
            let (r, eq, values) =
              scan_loop-occupied fuel (read s a q).1 (a + q) (n - q) (omega arith) (omega arith)
                (omega arith) in
            let whole = occupied-append memory a (a + q) q (n - q) n (omega arith) (omega arith) in
            (
              joined read chunk end some_chunk few short first r,
              other_round read chunk end some_chunk few short fuel s a r e same eq,
              append_both found values ∙ sym whole,
            )
      ]

-- On a device whose registers read as they are, a scan lists exactly those in the range that are not
-- zero, in the order of their addresses.
pub scan_registers-occupied :
    {S : Type 0} (read : ℕ → S → ℕ → ℕ → Option (List ℕ) × S) (s : S) (function start end chunk : ℕ)
    (memory : ℕ → ℕ)
    → ((t : S) (a q : ℕ)
        → 1 ≤ q
        → q ≤ 125
        → (read (scan_function function) t a q).0 ≡ some (cells memory a q))
    → IsRegisterRead function
    → start ≤ end
    → end < 65536
    → (r : ScanResult) × (scan_registers read s function start end chunk ≡ ok r)
      × (r.values ≡ occupied memory start (end - start + 1))
scan_registers-occupied read s function start end chunk memory honest rd le short =
    let (lo, hi) = chunk_bounds chunk in
    let (r, eq, values) =
      scan_loop-occupied memory (read (scan_function function)) (chunk_size chunk) end lo hi short
        honest (end - start + 1) s start (end - start + 1) (omega arith) (omega arith)
        (omega arith) in
    (r, guarded read s function start end chunk rd le ∙ eq, values)
