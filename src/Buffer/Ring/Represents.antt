-- ===== src/Buffer/Ring/Represents.antt =====
-- The buffer against the whole stream: it holds the last bytes, up to its capacity.
use mocktrue.Base.{ℕ, ◌-◌, ◌≡◌, refl, arith, min}
use mocktrue.Base.{List, []}
use mocktrue.Base.{length, drop}
use mocktrue.Base.Int64.{IsNat64}
use mocktrue.Buffer.Ring.{RingBuffer, new_ring, reset}
use mocktrue.Buffer.Ring.Chain.{bytes_of, Chain}

-- The buffer `r` after the bytes `stream` have passed through it.
pub record Represents (r : RingBuffer) (stream : List ℕ) : Type 0 where
  pub small : IsNat64 (length stream)
  pub small_capacity : IsNat64 r.capacity
  pub total : r.total ≡ length stream
  pub count : r.retained ≡ min r.capacity (length stream)
  pub chain : Chain (length stream - r.retained) r.chunks (length stream)
  pub kept : bytes_of r.chunks ≡ drop (length stream - r.retained) stream

pub new_ring-Represents : (capacity : ℕ) → IsNat64 capacity → Represents (new_ring capacity) []
unfolding new_ring bytes_of
new_ring-Represents capacity h = record {
  small = omega arith;
  small_capacity = h;
  total = refl;
  count = omega arith;
  chain = omega arith;
  kept = refl;
}

pub reset-Represents :
    (r : RingBuffer) (stream : List ℕ) → Represents r stream → Represents (reset r) []
unfolding reset bytes_of
reset-Represents r stream v = record {
  small = omega arith;
  small_capacity = v.small_capacity;
  total = refl;
  count = omega arith;
  chain = omega arith;
  kept = refl;
}
