-- ===== src/Buffer/Ring/Query.antt =====
-- `Query` against the whole stream.
use mocktrue.Base.{ℕ, ◌+◌, ◌-◌, ◌^◌, ◌<◌, ◌≤◌, ◌≡◌, refl, sym, ◌∙◌, arith}
use mocktrue.Base.{List, [], Bool, true, false, ◌&&◌, ltb, leb, not}
use mocktrue.Base.{length, take, drop}
use mocktrue.Base.{lt→ltb, le→leb, if◌then◌else◌}
use mocktrue.Base.Int64.{IsNat64}
use mocktrue.Buffer.Ring.{RingBuffer, Snapshot, joined}
use mocktrue.Buffer.Ring.{empty_snapshot, copy_range, query}
use mocktrue.Buffer.Ring.Represents.{Represents}
use native.Mathlib.Decide.{dec_lt}
use mocktrue.Buffer.Ring.Copying.{Pieces}
use mocktrue.Buffer.Ring.Cases.{
  query_nothing, query_end, query_evicted, query_copies, copy_range_value, joined-pieces,
  pieces_follow,
}

-- What a query of `count` bytes from `offset` on has to answer for the stream: the bytes that are
-- still held, cut off at the end of the stream.
abbrev pub readable : RingBuffer → List ℕ → ℕ → ℕ → List ℕ
readable r stream offset count =
    if ltb 0 count && (ltb offset (length stream) && leb (length stream - r.retained) offset)
    then take count (drop offset stream)
    else []

pub record Answers (r : RingBuffer) (stream : List ℕ) (offset count : ℕ) (s : Snapshot)
    : Type 0 where
  pub data_read : s.bytes ≡ readable r stream offset count
  pub in_pieces : joined s.chunks ≡ s.bytes
  pub consecutive : Pieces offset s.chunks
  pub from_offset : s.offset ≡ offset
  pub of_total : s.total ≡ length stream
  pub at_eof : s.eof ≡ not (ltb offset (length stream))

empty-Answers :
    (r : RingBuffer) (stream : List ℕ) (offset count : ℕ) (e : Bool)
    → readable r stream offset count ≡ []
    → e ≡ not (ltb offset (length stream))
    → Answers r stream offset count (empty_snapshot offset (length stream) e)
unfolding joined
empty-Answers r stream offset count e none_read at = record {
  data_read = sym none_read;
  in_pieces = refl;
  consecutive = tt;
  from_offset = refl;
  of_total = refl;
  at_eof = at;
}

copy-Answers :
    (r : RingBuffer) (stream : List ℕ) (v : Represents r stream) (offset count : ℕ)
    → (ho : IsNat64 offset) → (hc : IsNat64 count) → 0 < count
    → (room : offset + count < 2 ^ 63) → (h : offset < length stream)
    → (held : length stream - r.retained ≤ offset)
    → Answers r stream offset count (copy_range r offset count)
copy-Answers r stream v offset count ho hc p room h held =
    rw (copy_range_value r stream v offset count ho hc room h held) (record {
      data_read =
          joined-pieces r stream v offset count ho hc room h held
          ∙ rw (
            lt→ltb 0 count p,
            lt→ltb offset (length stream) h,
            le→leb (length stream - r.retained) offset held,
          );
      in_pieces = refl;
      consecutive = pieces_follow r stream v offset count ho hc room h held;
      from_offset = refl;
      of_total = refl;
      at_eof = rw (lt→ltb offset (length stream) h);
    })

-- `Query` on a buffer that represents a stream, for an offset from 0 on and with the end of the
-- range below 2^63, answers with the bytes of the stream from the offset on, or with none where the
-- offset is past the end or has been evicted; its pieces follow one another and join up to these
-- bytes; it reports the end exactly from the total on.
pub query-Answers :
    (r : RingBuffer) (stream : List ℕ)
    → Represents r stream
    → (offset count : ℕ) → IsNat64 offset
    → offset + count < 2 ^ 63
    → Answers r stream offset count (query r offset count)
query-Answers r stream v offset count ho room = elim (dec_lt 0 count) [
  | no z ↦
      rw (query_nothing r stream v offset count ho hc (omega arith))
        (empty-Answers r stream offset count _ (ground arith) refl)
  | yes p ↦ elim (dec_lt offset (length stream)) [
    | no e ↦
        rw (query_end r stream v offset count ho hc p (omega arith))
          (empty-Answers r stream offset count true (ground arith) (ground arith))
    | yes h ↦ elim (dec_lt offset (length stream - r.retained)) [
      | yes old ↦
          rw (query_evicted r stream v offset count ho hc p h old)
            (empty-Answers r stream offset count false (ground arith) (ground arith))
      | no held ↦
          rw (query_copies r stream v offset count ho hc p h (omega arith))
            (copy-Answers r stream v offset count ho hc p room h (omega arith))
    ]
  ]
]
  where
    hc : IsNat64 count
    hc = omega arith
