-- ===== src/Buffer/Ring/Cases.antt =====
-- The branches of `Query` on a buffer that represents a stream.
use mocktrue.Base.{ℕ, ◌+◌, ◌-◌, ◌^◌, ◌<◌, ◌≤◌, ◌≡◌, ap, sym, ◌∙◌, arith, min}
use mocktrue.Base.{List, [], ◌∷◌, true, false, ltb, not}
use mocktrue.Base.{length, take, drop, length-drop}
use mocktrue.Base.{take_all, drop-drop, take_over, ltb-false, lt→ltb, if◌then◌else◌}
use mocktrue.Base.Int64.{add64, sub64, lt64, le64, IsNat64, lt64_value, le64_value}
use mocktrue.Buffer.Ring.{Chunk, RingBuffer, SnapshotChunk, copy_from, joined}
use mocktrue.Buffer.Ring.{empty_snapshot, copy_range, starts_after, query}
use mocktrue.Buffer.Ring.Chain.{Chain, Chain-length}
use mocktrue.Buffer.Ring.Represents.{Represents}
use native.Mathlib.Decide.{dec_lt}
use mocktrue.Buffer.Ring.Search.{Start, find_start-Start}
use mocktrue.Buffer.Ring.Copying.{
  copy_from_inside, Pieces, Pieces-from, Pieces-step, copy_from-Pieces,
}

starts_after_value :
    (cs : List Chunk) (offset start end : ℕ)
    → IsNat64 offset
    → IsNat64 end
    → Chain start cs end
    → offset < end
    → starts_after offset cs ≡ ltb offset start
unfolding starts_after
starts_after_value [] o s e ho he ch h = sym (lt→ltb o s (omega arith))
starts_after_value (c ∷ cs) o s e ho he ch h =
    lt64_value o c.base ho (omega (arith, ch.0, Chain-length cs (s + length c.bytes) e ch.2))
    ∙ ap (ltb o) ch.0

take-min : (xs : List ℕ) (n : ℕ) → take (min n (length xs)) xs ≡ take n xs
take-min xs n = elim (dec_lt n (length xs)) [
  | yes h ↦ ap (λ k. take k xs) (omega arith)
  | no h ↦
      ap (λ k. take k xs) (whole (omega arith)) ∙ take_all xs ∙ sym (take_over xs n (omega arith))
]
  where
    whole : length xs ≤ n → min n (length xs) ≡ length xs
    whole h = omega arith

module _ (r : RingBuffer) (stream : List ℕ) (v : Represents r stream) (offset count : ℕ)
    (ho : IsNat64 offset) (hc : IsNat64 count) where
  abbrev oldest : ℕ
  oldest = length stream - r.retained

  not_negative : lt64 offset 0 ≡ false
  not_negative = lt64_value offset 0 ho (omega arith) ∙ ltb-false offset 0 (omega arith)

  at_end : le64 r.total offset ≡ not (ltb offset (length stream))
  at_end = ap (λ t. le64 t offset) v.total ∙ le64_value (length stream) offset v.small ho

  -- No bytes are asked for.
  pub query_nothing :
      count ≡ 0
      → query r offset count
        ≡ empty_snapshot offset (length stream) (not (ltb offset (length stream)))
  unfolding query
  query_nothing z = rw (
    not_negative,
    le64_value count 0 hc (omega arith),
    ltb-false 0 count (omega arith),
    at_end,
    v.total,
  )

  -- At or past the end of the stream.
  pub query_end :
      0 < count
      → length stream ≤ offset
      → query r offset count ≡ empty_snapshot offset (length stream) true
  unfolding query
  query_end p h = rw (
    not_negative,
    le64_value count 0 hc (omega arith),
    lt→ltb 0 count p,
    at_end,
    ltb-false offset (length stream) h,
    v.total,
  )

  -- Below the oldest byte that is held.
  pub query_evicted :
      0 < count
      → offset < length stream
      → offset < oldest
      → query r offset count ≡ empty_snapshot offset (length stream) false
  unfolding query
  query_evicted p h old = rw (
    not_negative,
    le64_value count 0 hc (omega arith),
    lt→ltb 0 count p,
    at_end,
    lt→ltb offset (length stream) h,
    starts_after_value r.chunks offset oldest (length stream) ho v.small v.chain h,
    lt→ltb offset oldest old,
    v.total,
  )

  pub query_copies :
      0 < count
      → offset < length stream
      → oldest ≤ offset
      → query r offset count ≡ copy_range r offset count
  unfolding query
  query_copies p h held = rw (
    not_negative,
    le64_value count 0 hc (omega arith),
    lt→ltb 0 count p,
    at_end,
    lt→ltb offset (length stream) h,
    starts_after_value r.chunks offset oldest (length stream) ho v.small v.chain h,
    ltb-false offset oldest held,
  )

  module _ (room : offset + count < 2 ^ 63) (h : offset < length stream)
      (held : oldest ≤ offset) where
    here : Start offset oldest (length stream) r.chunks
    here = find_start-Start offset oldest (length stream) r.chunks v.small v.chain held h

    -- The number of bytes that the loop is to copy.
    wanted : ℕ
    wanted = min count (length stream - offset)

    pub pieces : List SnapshotChunk
    pieces = copy_from wanted (offset - here.at) (here.first ∷ here.rest)

    wanted_value :
        (if lt64 r.total (add64 offset count) then sub64 r.total offset else count) ≡ wanted
    unfolding wanted
    wanted_value = rw sum (
        ground (
          arith,
          ap (λ t. lt64 t (offset + count)) v.total,
          lt64_value (length stream) (offset + count) v.small room,
          rest,
        ))
      where
        sum : add64 offset count ≡ offset + count
        sum = omega arith

        rest : sub64 r.total offset ≡ length stream - offset
        rest = omega (arith, v.total, v.small)

    skip_value : sub64 offset here.first.base ≡ offset - here.at
    skip_value = omega (arith, here.chain.0, here.below)

    pub copy_range_value : copy_range r offset count ≡ record {
      offset = offset;
      bytes = joined pieces;
      chunks = pieces;
      total = length stream;
      eof = false;
    }
    unfolding copy_range pieces
    copy_range_value = ground (arith, here.result, skip_value, wanted_value, not_below, v.total)
      where
        not_below : lt64 (offset - here.at) 0 ≡ false
        not_below =
            lt64_value (offset - here.at) 0 (omega arith) (omega arith)
            ∙ ltb-false (offset - here.at) 0 (omega arith)

    small_wanted : IsNat64 wanted
    unfolding wanted
    small_wanted = omega arith

    inside : offset - here.at ≤ length here.first.bytes
    inside = omega (arith, here.below, here.above)

    pub joined-pieces : joined pieces ≡ take count (drop offset stream)
    unfolding pieces wanted
    joined-pieces =
        copy_from_inside wanted (offset - here.at) here.at (length stream) here.first here.rest
          small_wanted v.small here.chain inside
        ∙ ap (take wanted) (
            sym here.same
            ∙ ap (drop (offset - oldest)) v.kept
            ∙ drop-drop (offset - oldest) oldest stream
            ∙ ap (λ n. drop n stream) (omega arith))
        ∙ ap (λ n. take (min count n) (drop offset stream)) (sym (length-drop offset stream))
        ∙ take-min (drop offset stream) count

    pub pieces_follow : Pieces offset pieces
    unfolding pieces
    pieces_follow =
        Pieces-from pieces (here.at + (offset - here.at)) offset (omega (arith, here.below)) (
          Pieces-step wanted (offset - here.at) here.at (length stream) here.first here.rest
            small_wanted v.small here.chain inside
            (copy_from-Pieces (wanted - (length here.first.bytes - (offset - here.at)))
              (here.at + length here.first.bytes) (length stream) here.rest
              (omega (arith, small_wanted)) v.small here.chain.2))
