-- ===== src/Modbus/DataModel/Laws.antt =====
-- Reading back what was written, and what a write leaves alone.
use mocktrue.Base.{ℕ, zero, suc, ◌+◌, ◌<◌, ◌≤◌, ◌≡◌, ◌≢◌, refl, ap, ap₂, sym, ◌∙◌, fun_ext, arith}
use mocktrue.Base.{List, [], ◌∷◌, none, some, ok, ==_ne, ==_refl}
use mocktrue.Base.{length, Option-cases}
use mocktrue.Modbus.DataModel.{Table, DataModel, at, put, get, copy_map, write_loop, read_loop}
use mocktrue.Modbus.DataModel.{write_range, read_range, clone}

-- Within 65536 values no address comes twice.
at-injective : (address i j : ℕ) → i < 65536 → j < 65536 → at address i ≡ at address j → i ≡ j
at-injective address i j hi hj e = omega arith

module _ {V : Type 0} where
  pub put_self : (m : Table V) (k : ℕ) (v : V) → put m k v k ≡ some v
  unfolding put
  put_self m k v = rw (==_refl k)

  get-some : (d : V) (m : Table V) (k : ℕ) (v : V) → m k ≡ some v → get d m k ≡ v
  unfolding get
  get-some d m k v e = ground arith

  get-put_self : (d : V) (m : Table V) (k : ℕ) (v : V) → get d (put m k v) k ≡ v
  get-put_self d m k v = get-some d (put m k v) k v (put_self m k v)

  get_of_eq : (d : V) (m n : Table V) (k : ℕ) → m k ≡ n k → get d m k ≡ get d n k
  unfolding get
  get_of_eq d m n k e = ground arith

  pub put_other : (m : Table V) (k j : ℕ) (v : V) → k ≢ j → put m k v j ≡ m j
  unfolding put
  put_other m k j v h = rw (==_ne k j h)

  pub write_loop_one :
      (m : Table V) (address : ℕ) (v : V)
      → address < 65536
      → write_loop m address 0 (v ∷ []) ≡ put m address v
  unfolding write_loop
  write_loop_one m address v h = ap (λ k. put m k v) (omega arith)

  -- A key that none of the written addresses is keeps its entry.
  pub write_loop_other :
      (m : Table V) (address i k : ℕ) (vs : List V)
      → ((j : ℕ) → i ≤ j → j < i + length vs → at address j ≢ k)
      → write_loop m address i vs k ≡ m k
  unfolding write_loop
  write_loop_other m address i k [] h = refl
  write_loop_other m address i k (v ∷ vs) h =
      write_loop_other (put m (at address i) v) address (i + 1) k vs
        (λ j lo hi. h j (omega arith) (omega arith))
      ∙ put_other m (at address i) k v (h i (omega arith) (omega arith))

  pub read_loop-write_loop :
      (d : V) (m : Table V) (address i : ℕ) (vs : List V)
      → i + length vs ≤ 65536
      → read_loop d (write_loop m address i vs) address i (length vs) ≡ vs
  unfolding read_loop write_loop
  read_loop-write_loop d m address i [] h = refl
  read_loop-write_loop d m address i (v ∷ vs) h =
      ap₂ ◌∷◌ kept
        (read_loop-write_loop d (put m (at address i) v) address (i + 1) vs (omega arith))
    where
      kept : get d (write_loop (put m (at address i) v) address (i + 1) vs) (at address i) ≡ v
      kept =
          get_of_eq d _ _ (at address i) (
            write_loop_other (put m (at address i) v) address (i + 1) (at address i) vs
              (λ j lo hi e.
                absurd
                  (omega (arith, at-injective address i j (omega arith) (omega arith) (sym e)))))
          ∙ get-put_self d m (at address i) v

  -- At most 65535 values, as many as a uint16 counts, that were written from a uint16 address on read
  -- back from it as they were, the addresses going on from 65535 to 0.
  pub read_range-write_range :
      (d : V) (m t : Table V) (address : ℕ) (vs : List V)
      → address < 65536
      → length vs < 65536
      → write_range m address vs ≡ ok t
      → read_range d t address (length vs) ≡ ok vs
  unfolding read_range write_range
  read_range-write_range d m t address [] a h e = absurd (cc e)
  read_range-write_range d m t address (v ∷ vs) a h e =
      ground (arith, read_loop-write_loop d m address 0 (v ∷ vs))

  pub length-read_loop :
      (d : V) (m : Table V) (address i n : ℕ) → length (read_loop d m address i n) ≡ n
  unfolding read_loop
  length-read_loop d m address i zero = refl
  length-read_loop d m address i (suc n) = ap suc (length-read_loop d m address (i + 1) n)

  copy_entry : (src : Table V) (k : ℕ) → copy_map (λ _. none) src k ≡ src k
  unfolding copy_map
  copy_entry src k = ground (arith, Option-cases (src k))

  copy_map_empty : (src : Table V) → copy_map (λ _. none) src ≡ src
  copy_map_empty src = fun_ext (copy_entry src)

-- A clone holds what the original holds.
pub clone_lem : (m : DataModel) → clone (some m) ≡ m
unfolding clone
clone_lem m = λ i. record {
  coils = copy_map_empty m.coils i;
  discrete_inputs = copy_map_empty m.discrete_inputs i;
  input_registers = copy_map_empty m.input_registers i;
  holding_registers = copy_map_empty m.holding_registers i;
}
