-- ===== src/Modbus/Scan/Tests.antt =====
-- A scan up to the last address there is.
use mocktrue.Base.{ℕ, ◌≡◌, inr, refl, List, Option, some, ok, arith, ◌==◌, if◌then◌else◌, ◌-◌, ◌+◌}
use mocktrue.Modbus.Scan.{ScanResult, scan_registers}
use mocktrue.Modbus.Scan.Cover.{Tiles, scan_registers-Tiles}
use mocktrue.Modbus.Scan.Values.{cells, occupied, scan_registers-occupied}

abbrev memory : ℕ → ℕ
memory a = if a == 65535 then 7 else 0

abbrev device : ℕ → Unit {0} → ℕ → ℕ → Option (List ℕ) × Unit {0}
device function s a q = (some (cells memory a q), s)

scan_registers-Tiles_example :
    (r : ScanResult) × (scan_registers device tt 4 65500 65535 16 ≡ ok r)
    × Tiles 65500 65535 r.ranges
scan_registers-Tiles_example =
    scan_registers-Tiles device tt 4 65500 65535 16 (inr (inr refl)) (omega arith) (omega arith)

scan_registers-occupied_example :
    (r : ScanResult) × (scan_registers device tt 4 65500 65535 16 ≡ ok r)
    × (r.values ≡ occupied memory 65500 (65535 - 65500 + 1))
scan_registers-occupied_example =
    scan_registers-occupied device tt 4 65500 65535 16 memory (λ t a q lo hi. refl) (inr (inr refl))
      (omega arith) (omega arith)
