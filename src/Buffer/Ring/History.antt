-- ===== src/Buffer/Ring/History.antt =====
-- The histories of a ring buffer as its writer makes them.
use mocktrue.Base.{ℕ, ◌+◌, ◌^◌, ◌<◌, ◌≡◌, List, [], ◌++◌, length}
use mocktrue.Base.Int64.{IsNat64}
use mocktrue.Buffer.Ring.{Chunk, RingBuffer, new_ring, append, reset}
use mocktrue.Buffer.Ring.Represents.{Represents, new_ring-Represents, reset-Represents}
use mocktrue.Buffer.Ring.Appending.{append-Represents}

-- The buffers that `NewRing`, `Append` at the end of the stream and `Reset` make, each with the bytes
-- since the last reset. The total stays below 2^63.
pub data Reached : RingBuffer → List ℕ → Type 0 where
  created : (capacity : ℕ) → IsNat64 capacity → Reached (new_ring capacity) []
  appended :
      (r : RingBuffer) (stream : List ℕ) (c : Chunk)
      → Reached r stream
      → c.base ≡ r.total
      → length stream + length c.bytes < 2 ^ 63
      → Reached (append r c) (stream ++ c.bytes)
  cleared : (r : RingBuffer) (stream : List ℕ) → Reached r stream → Reached (reset r) []

-- Each buffer that such a history makes holds the last bytes of its stream, as many as the capacity
-- allows, in chunks that follow one another, with the counts of all and of the retained bytes.
pub Reached-Represents : (r : RingBuffer) (stream : List ℕ) → Reached r stream → Represents r stream
Reached-Represents _ _ (created capacity h) = new_ring-Represents capacity h
Reached-Represents _ _ (appended r stream c h at room) =
    append-Represents r c stream (Reached-Represents r stream h) at room
Reached-Represents _ _ (cleared r stream h) =
    reset-Represents r stream (Reached-Represents r stream h)
