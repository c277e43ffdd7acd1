-- ===== src/Buffer/Ring/Appending.antt =====
-- `Append` keeps the buffer faithful to the stream.
use mocktrue.Base.{ℕ, ◌+◌, ◌-◌, ◌^◌, ◌<◌, ◌≤◌, ◌≡◌, refl, ap, ap₂, sym, ◌∙◌, arith}
use mocktrue.Base.{
  List, [], ◌∷◌, ◌++◌, true, false, Bool-cases, inl, inr, ltb, not, ◌==◌, ◌||◌, if◌then◌else◌, ◌⊎◌,
}
use mocktrue.Base.{length, drop, length-append, length-drop, drop_past, drop_within, append-nil}
use mocktrue.Base.{drop_all, drop-drop, ltb-false, lt→ltb}
use mathlib.Core.Path.{subst}
use mocktrue.Base.Int64.{add64, sub64, lt64, le64, IsNat64, lt64_value, le64_value}
use mocktrue.Buffer.Ring.{Chunk, RingBuffer, drop_front, evict, clamp_chunk, append}
use mocktrue.Buffer.Ring.Chain.{bytes_of, bytes_of-append, Chain, Chain-snoc, Chain-length}
use mocktrue.Buffer.Ring.Chain.{evict_keep, evict_pop, Evicted, evict-Evicted}
use native.Mathlib.Decide.{dec_lt}
use mocktrue.Buffer.Ring.Represents.{Represents}

-- Older chunks all go where the newest alone fills the capacity.
evict_older :
    (limit r start end : ℕ) (old : List Chunk) (c : Chunk)
    → IsNat64 limit
    → IsNat64 r
    → Chain start old end
    → length c.bytes ≡ limit
    → r ≡ length (bytes_of old) + limit
    → evict limit r (old ++ (c ∷ [])) ≡ (c ∷ [], limit)
unfolding bytes_of
evict_older limit r s e [] c hl hr ch full eq =
    evict_keep limit r c [] hl hr (omega arith) ∙ ap (λ k. (c ∷ [], k)) (omega arith)
evict_older limit r s e (d ∷ ds) c hl hr ch full eq =
    evict_pop limit r d (ds ++ (c ∷ [])) hl hr
      (omega (arith, ch.1, length-append d.bytes (bytes_of ds)))
      (omega (arith, length-append d.bytes (bytes_of ds)))
    ∙ evict_older limit (r - length d.bytes) (s + length d.bytes) e ds c hl (omega arith) ch.2 full
        (omega (arith, length-append d.bytes (bytes_of ds)))

length-zero : (xs : List ℕ) → length xs ≡ 0 → xs ≡ []
length-zero [] h = refl
length-zero (x ∷ xs) h = absurd (omega arith)

Chain-empty : (cs : List Chunk) (s e : ℕ) → Chain s cs e → s ≡ e → cs ≡ []
Chain-empty [] s e h p = refl
Chain-empty (c ∷ cs) s e h p =
    absurd (omega (arith, h.1, Chain-length cs (s + length c.bytes) e h.2))

module _ (r : RingBuffer) (c : Chunk) (stream : List ℕ) (v : Represents r stream)
    (at : c.base ≡ r.total) (room : length stream + length c.bytes < 2 ^ 63) where
  abbrev more : List ℕ
  more = stream ++ c.bytes

  length-more : length more ≡ length stream + length c.bytes
  length-more = length-append stream c.bytes

  -- The new total, whichever branch sets it.
  end_value : add64 c.base (length c.bytes) ≡ length more
  end_value = omega (arith, v.total, length-more)

  total_value :
      (if lt64 r.total (add64 c.base (length c.bytes))
        then add64 c.base (length c.bytes)
        else r.total)
      ≡ length more
  total_value = rw end_value (
      ground (
        arith,
        lt64_value r.total (length more) (omega (arith, v.total, v.small))
            (omega (arith, length-more)),
        v.total,
        length-more,
      ))

  no_capacity : le64 r.capacity 0 ≡ not (ltb 0 r.capacity)
  no_capacity = le64_value r.capacity 0 v.small_capacity (omega arith)

  append_unstored :
      (length c.bytes == 0 || not (ltb 0 r.capacity)) ≡ true
      → append r c ≡ record r { total = length more }
  unfolding append
  append_unstored e = rw (total_value, no_capacity, e)

  append_stored :
      (length c.bytes == 0 || not (ltb 0 r.capacity)) ≡ false
      → let c' = clamp_chunk r.capacity c in
        let (chunks', retained') =
          evict r.capacity (add64 r.retained (length c'.bytes)) (r.chunks ++ (c' ∷ [])) in
        append r c ≡ record r { chunks = chunks'; total = length more; retained = retained' }
  unfolding append
  append_stored e = rw (total_value, no_capacity, e)

  -- What is stored of `c` with all of it, and with its last bytes.
  clamp_small : length c.bytes ≤ r.capacity → clamp_chunk r.capacity c ≡ c
  unfolding clamp_chunk
  clamp_small h = rw (
    lt64_value r.capacity (length c.bytes) v.small_capacity (omega arith),
    ltb-false r.capacity (length c.bytes) h,
  )

  clamp_large :
      r.capacity < length c.bytes
      → clamp_chunk r.capacity c ≡ drop_front (length c.bytes - r.capacity) c
  unfolding clamp_chunk
  clamp_large h =
      rw
        (
          lt64_value r.capacity (length c.bytes) v.small_capacity (omega arith),
          lt→ltb r.capacity (length c.bytes) h,
        )
        (ap (λ n. drop_front n c) excess)
    where
      excess : sub64 (length c.bytes) r.capacity ≡ length c.bytes - r.capacity
      excess = omega (arith, v.small_capacity)

  all_kept :
      0 < length c.bytes
      → Evicted r.capacity
          (r.retained + length c.bytes)
          (length more)
          (r.chunks ++ (c ∷ []))
          (evict r.capacity (r.retained + length c.bytes) (r.chunks ++ (c ∷ [])))
  all_kept l =
      evict-Evicted r.capacity (r.retained + length c.bytes) (length stream - r.retained)
        (length more) (r.chunks ++ (c ∷ [])) v.small_capacity (omega (arith, length-more)) whole
        (omega (arith, v.count, length-more))
    where
      whole : Chain (length stream - r.retained) (r.chunks ++ (c ∷ [])) (length more)
      whole = subst (Chain (length stream - r.retained) (r.chunks ++ (c ∷ []))) (sym length-more) (
          Chain-snoc r.chunks c (length stream - r.retained) (length stream) v.chain (at ∙ v.total)
            l)

  kept_bytes : bytes_of (r.chunks ++ (c ∷ [])) ≡ drop (length stream - r.retained) more
  unfolding bytes_of
  kept_bytes =
      bytes_of-append r.chunks (c ∷ [])
      ∙ ap₂ ◌++◌ v.kept (append-nil c.bytes)
      ∙ sym (drop_within stream c.bytes (length stream - r.retained) (omega arith))

  Evicted-Represents :
      0 < length c.bytes
      → (out : List Chunk × ℕ)
      → Evicted r.capacity (r.retained + length c.bytes) (length more) (r.chunks ++ (c ∷ [])) out
      → Represents (record r { chunks = out.0; total = length more; retained = out.1 }) more
  Evicted-Represents l out ev = record {
    small = omega (arith, length-more);
    small_capacity = v.small_capacity;
    total = refl;
    count = omega (arith, ev.count, v.count, length-more);
    chain = ev.chain;
    kept =
        ev.kept
        ∙ ap (drop (r.retained + length c.bytes - out.1)) kept_bytes
        ∙ drop-drop (r.retained + length c.bytes - out.1) (length stream - r.retained) more
        ∙ ap (λ n. drop n more) (omega (arith, ev.count, v.count, length-more));
  }

  clamped-Represents :
      r.capacity < length c.bytes
      → 0 < r.capacity
      → let c' = drop_front (length c.bytes - r.capacity) c in
        Represents (record r { chunks = c' ∷ []; total = length more; retained = r.capacity }) more
  unfolding bytes_of
  clamped-Represents over p = record {
    small = omega (arith, length-more);
    small_capacity = v.small_capacity;
    total = refl;
    count = omega (arith, length-more);
    chain = (
      omega (arith, at, v.total, length-more),
      omega (arith, length-drop (length c.bytes - r.capacity) c.bytes),
      omega (arith, length-more, length-drop (length c.bytes - r.capacity) c.bytes),
    );
    kept =
        append-nil (drop (length c.bytes - r.capacity) c.bytes)
        ∙ sym (
            drop_past stream c.bytes (length c.bytes - r.capacity) (length more - r.capacity)
              (omega (arith, length-more)));
  }

  stored-Represents :
      0 < r.capacity
      → 0 < length c.bytes
      → let c' = clamp_chunk r.capacity c in
        let (chunks', retained') =
          evict r.capacity (add64 r.retained (length c'.bytes)) (r.chunks ++ (c' ∷ [])) in
        Represents (record r { chunks = chunks'; total = length more; retained = retained' }) more
  stored-Represents p l = elim (dec_lt r.capacity (length c.bytes)) [
    | yes over ↦ rw (clamp_large over, older over) (clamped-Represents over p)
    | no fits ↦ rw (clamp_small (omega arith), sum_value) (Evicted-Represents l _ (all_kept l))
  ]
    where
      sum_value : add64 r.retained (length c.bytes) ≡ r.retained + length c.bytes
      sum_value = omega (arith, v.count, v.small)

      older :
          r.capacity < length c.bytes
          → let c' = drop_front (length c.bytes - r.capacity) c in
            evict r.capacity (add64 r.retained (length c'.bytes)) (r.chunks ++ (c' ∷ []))
            ≡ (c' ∷ [], r.capacity)
      older over =
          evict_older r.capacity _ (length stream - r.retained) (length stream) r.chunks
            (drop_front (length c.bytes - r.capacity) c) v.small_capacity
            (omega (
              arith,
              v.count,
              v.small,
              v.small_capacity,
              length-drop (length c.bytes - r.capacity) c.bytes,
            ))
            v.chain (omega (arith, length-drop (length c.bytes - r.capacity) c.bytes))
            (omega (
              arith,
              v.count,
              v.small,
              v.small_capacity,
              length-drop (length c.bytes - r.capacity) c.bytes,
              Chain-length r.chunks (length stream - r.retained) (length stream) v.chain,
            ))

  unstored-Represents :
      (length c.bytes ≡ 0) ⊎ (r.capacity ≡ 0) → Represents (record r { total = length more }) more
  unstored-Represents (inl e) =
      let same : stream ++ c.bytes ≡ stream =
        ap (λ t. stream ++ t) (length-zero c.bytes e) ∙ append-nil stream in
      let end : length more ≡ r.total = ap length same ∙ sym v.total in rw end (rw same v)
  unstored-Represents (inr e) =
      let none_kept : r.chunks ≡ [] =
        Chain-empty r.chunks (length stream - r.retained) (length stream) v.chain
          (omega (arith, v.count)) in
      record {
        small = omega (arith, length-more);
        small_capacity = v.small_capacity;
        total = refl;
        count = omega (arith, v.count);
        chain = rw none_kept (omega (arith, v.count));
        kept =
            ap bytes_of none_kept
            ∙ unfold bytes_of in
              sym (drop_all more (length more - r.retained) (omega (arith, v.count)));
      }

  -- `Append` at the end of the stream keeps the buffer faithful: it then holds the last bytes of the
  -- longer stream, as many as its capacity allows, in chunks that follow one another.
  pub append-Represents : Represents (append r c) more
  append-Represents = elim (Bool-cases (length c.bytes == 0 || not (ltb 0 r.capacity))) [
    | inl e ↦ rw (append_unstored e) (unstored-Represents (ground arith))
    | inr e ↦ rw (append_stored e) (stored-Represents (ground arith) (ground arith))
  ]
