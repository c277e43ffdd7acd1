-- ===== src/Buffer/Ring.antt =====
-- buffer/ring.go and buffer/chunk.go. An int64 is its bit pattern; the mutex makes each method one
-- step, so a method is a function from the buffer to the buffer and its result.
pub mod Chain
pub mod Represents
pub mod Appending
pub mod Search
pub mod Copying
pub mod Cases
pub mod Query
pub mod History
mod Tests
use mocktrue.Base.{
  ℕ, ◌+◌, ◌-◌, ◌%◌, ◌^◌, List, [], ◌∷◌, ◌++◌, Bool, true, false, Option, none, some,
}
use mocktrue.Base.{◌==◌, ◌&&◌, ◌||◌, not, if◌then◌else◌, length, take, drop, Text}
use mocktrue.Base.Int64.{add64, sub64, lt64, le64}

pub record Chunk : Type 0 where
  pub seq : ℕ
  pub base : ℕ
  pub timestamp : Text
  pub bytes : List ℕ

pub record SnapshotChunk : Type 0 where
  pub offset : ℕ
  pub timestamp : Text
  pub bytes : List ℕ

pub record Snapshot : Type 0 where
  pub offset : ℕ
  pub bytes : List ℕ
  pub chunks : List SnapshotChunk
  pub total : ℕ
  pub eof : Bool

pub record RingBuffer : Type 0 where
  pub chunks : List Chunk
  pub total : ℕ
  pub retained : ℕ
  pub capacity : ℕ

unfoldable pub new_ring : ℕ → RingBuffer
new_ring capacity = record { chunks = []; total = 0; retained = 0; capacity = capacity }

-- `c.BaseOffset += n; c.Data = c.Data[n:]`
abbrev pub drop_front : ℕ → Chunk → Chunk
drop_front n c = record c { base = add64 c.base n; bytes = drop n c.bytes }

-- The eviction loop: the chunks and the retained count that it leaves. A chunk that is cut leaves
-- `retained` at the capacity, where the loop's test fails.
unfoldable pub evict : ℕ → ℕ → List Chunk → List Chunk × ℕ
evict capacity retained [] = ([], retained)
evict capacity retained (oldest ∷ rest) =
    let excess = sub64 retained capacity in
    let later = evict capacity (sub64 retained (length oldest.bytes)) rest in
    if not (lt64 capacity retained)
    then (oldest ∷ rest, retained)
    else if le64 (length oldest.bytes) excess
    then later
    else (drop_front excess oldest ∷ rest, sub64 retained excess)

-- A chunk longer than the capacity keeps its last bytes.
unfoldable pub clamp_chunk : ℕ → Chunk → Chunk
clamp_chunk capacity c =
    if lt64 capacity (length c.bytes) then drop_front (sub64 (length c.bytes) capacity) c else c

unfoldable pub append : RingBuffer → Chunk → RingBuffer
append r c =
    let end = add64 c.base (length c.bytes) in
    let total' = if lt64 r.total end then end else r.total in
    if length c.bytes == 0 || le64 r.capacity 0
    then record r { total = total' }
    else (let c' = clamp_chunk r.capacity c in
        let (chunks', retained') =
          evict r.capacity (add64 r.retained (length c'.bytes)) (r.chunks ++ (c' ∷ [])) in
        record r { chunks = chunks'; total = total'; retained = retained' })

-- The search for the chunk that holds `offset`: that chunk and those behind it.
unfoldable pub find_start : ℕ → List Chunk → List Chunk
find_start offset [] = []
find_start offset (c ∷ cs) =
    let rest = find_start offset cs in
    if lt64 offset (add64 c.base (length c.bytes)) then c ∷ cs else rest

-- The copy loop, with `remaining` bytes to go and `skip` to leave out of the first chunk.
unfoldable pub copy_from : ℕ → ℕ → List Chunk → List SnapshotChunk
copy_from remaining skip [] = []
copy_from remaining skip (c ∷ cs) =
    let left = length c.bytes - skip in
    let available = if lt64 remaining left then remaining else left in
    let piece = take available (drop skip c.bytes) in
    let rest = copy_from (remaining - available) 0 cs in
    if remaining == 0
    then []
    else record { offset = add64 c.base skip; timestamp = c.timestamp; bytes = piece } ∷ rest

-- `result`, the bytes of the pieces in order.
unfoldable pub joined : List SnapshotChunk → List ℕ
joined [] = []
joined (p ∷ ps) = p.bytes ++ joined ps

abbrev pub empty_snapshot : ℕ → ℕ → Bool → Snapshot
empty_snapshot offset total eof = record {
  offset = offset;
  bytes = [];
  chunks = [];
  total = total;
  eof = eof;
}

-- The part of `Query` behind the tests, for an offset below the total.
unfoldable pub copy_range : RingBuffer → ℕ → ℕ → Snapshot
copy_range r offset length' =
    let count = if lt64 r.total (add64 offset length') then sub64 r.total offset else length' in
    elim (find_start offset r.chunks) [
      | [] ↦ empty_snapshot offset r.total false
      | c ∷ cs ↦
          if lt64 (sub64 offset c.base) 0
          then empty_snapshot offset r.total false
          else (let pieces = copy_from count (sub64 offset c.base) (c ∷ cs) in
              record {
                offset = offset;
                bytes = joined pieces;
                chunks = pieces;
                total = r.total;
                eof = false;
              })
    ]

-- The base of the oldest chunk, if there is one.
unfoldable pub starts_after : ℕ → List Chunk → Bool
starts_after offset [] = true
starts_after offset (c ∷ _) = lt64 offset c.base

-- `Query`, whose error is always nil.
unfoldable pub query : RingBuffer → ℕ → ℕ → Snapshot
query r offset' length' =
    let offset = if lt64 offset' 0 then 0 else offset' in
    if le64 length' 0
    then empty_snapshot offset r.total (le64 r.total offset)
    else if le64 r.total offset
    then empty_snapshot offset r.total true
    else if starts_after offset r.chunks
    then empty_snapshot offset r.total false
    else copy_range r offset length'

unfoldable pub total_bytes : RingBuffer → ℕ
total_bytes r = r.total

unfoldable pub reset : RingBuffer → RingBuffer
reset r = record r { chunks = []; total = 0; retained = 0 }
