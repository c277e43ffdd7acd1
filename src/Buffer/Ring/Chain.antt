-- ===== src/Buffer/Ring/Chain.antt =====
-- Chunks that follow one another, and what the eviction loop makes of them.
use mocktrue.Base.{ℕ, ◌+◌, ◌-◌, ◌<◌, ◌≤◌, ◌≡◌, refl, ap, sym, ◌∙◌, arith, min}
use mocktrue.Base.{List, [], ◌∷◌, ◌++◌, append_assoc}
use mocktrue.Base.{length, drop, length-append, length-drop, drop_past, drop_within, drop_all}
use mathlib.Core.Path.{subst}
use native.Mathlib.Decide.{dec_lt}
use mocktrue.Base.Int64.{sub64, IsNat64, lt64_value, le64_value}
use mocktrue.Buffer.Ring.{Chunk, drop_front, evict}

-- The bytes of the chunks in order.
unfoldable pub bytes_of : List Chunk → List ℕ
bytes_of [] = []
bytes_of (c ∷ cs) = c.bytes ++ bytes_of cs

-- The chunks are not empty, and they cover the offsets from `start` to `end` without a gap.
abbrev pub Chain : ℕ → List Chunk → ℕ → Type 0
Chain start [] end = start ≡ end
Chain start (c ∷ cs) end =
    (c.base ≡ start) × (0 < length c.bytes) × Chain (start + length c.bytes) cs end

pub Chain-length :
    (cs : List Chunk) (start end : ℕ) → Chain start cs end → start + length (bytes_of cs) ≡ end
unfolding bytes_of
Chain-length [] s e h = omega arith
Chain-length (c ∷ cs) s e h =
    omega (arith, length-append c.bytes (bytes_of cs), Chain-length cs (s + length c.bytes) e h.2)

pub Chain-snoc :
    (cs : List Chunk) (c : Chunk) (start end : ℕ)
    → Chain start cs end
    → c.base ≡ end
    → 0 < length c.bytes
    → Chain start (cs ++ (c ∷ [])) (end + length c.bytes)
Chain-snoc [] c s e h b l = (b ∙ sym h, l, ap (λ t. t + length c.bytes) h)
Chain-snoc (d ∷ ds) c s e h b l = (h.0, h.1, Chain-snoc ds c (s + length d.bytes) e h.2 b l)

pub bytes_of-append : (xs ys : List Chunk) → bytes_of (xs ++ ys) ≡ bytes_of xs ++ bytes_of ys
unfolding bytes_of
bytes_of-append [] ys = refl
bytes_of-append (x ∷ xs) ys =
    ap (λ t. x.bytes ++ t) (bytes_of-append xs ys)
    ∙ sym (append_assoc x.bytes (bytes_of xs) (bytes_of ys))

-- One round of the loop, on small numbers.
module _ (limit r : ℕ) (c : Chunk) (cs : List Chunk) (hc : IsNat64 limit) (hr : IsNat64 r) where
  pub evict_keep : r ≤ limit → evict limit r (c ∷ cs) ≡ (c ∷ cs, r)
  unfolding evict
  evict_keep h = ground (arith, lt64_value limit r hc hr)

  pub evict_pop :
      limit < r
      → length c.bytes ≤ r - limit
      → evict limit r (c ∷ cs) ≡ evict limit (r - length c.bytes) cs
  unfolding evict
  evict_pop h l = ground (
    arith,
    lt64_value limit r hc hr,
    le64_value (length c.bytes) (r - limit),
    excess_value,
    popped_value l,
  )
    where
      excess_value : sub64 r limit ≡ r - limit
      excess_value = omega arith

      popped_value : length c.bytes ≤ r - limit → sub64 r (length c.bytes) ≡ r - length c.bytes
      popped_value k = omega arith

  evict_cut :
      limit < r
      → r - limit < length c.bytes
      → IsNat64 (length c.bytes)
      → evict limit r (c ∷ cs) ≡ (drop_front (r - limit) c ∷ cs, limit)
  unfolding evict
  evict_cut h l hl = ground (
    arith,
    lt64_value limit r hc hr,
    le64_value (length c.bytes) (r - limit) hl,
    excess_value,
    left_value,
  )
    where
      excess_value : sub64 r limit ≡ r - limit
      excess_value = omega arith

      left_value : sub64 r (r - limit) ≡ limit
      left_value = omega arith

-- The loop drops the oldest bytes down to the capacity, and no others.
pub record Evicted (limit r end : ℕ) (cs : List Chunk) (out : List Chunk × ℕ) : Type 0 where
  pub count : out.1 ≡ min limit r
  pub chain : Chain (end - out.1) out.0 end
  pub kept : bytes_of out.0 ≡ drop (r - out.1) (bytes_of cs)

pub Chain-from : (cs : List Chunk) (s t end : ℕ) → s ≡ t → Chain s cs end → Chain t cs end
Chain-from cs s t end e h = subst (λ k. Chain k cs end) e h

kept_whole :
    (limit r start end : ℕ) (cs : List Chunk)
    → Chain start cs end
    → r + start ≡ end
    → r ≤ limit
    → Evicted limit r end cs (cs, r)
kept_whole limit r start end cs ch e h = record {
  count = omega arith;
  chain = Chain-from cs start (end - r) end (omega arith) ch;
  kept = ap (λ n. drop n (bytes_of cs)) none_dropped;
}
  where
    none_dropped : 0 ≡ r - r
    none_dropped = omega arith

cut_first :
    (limit r start end : ℕ) (c : Chunk) (cs : List Chunk)
    → IsNat64 end
    → Chain start (c ∷ cs) end
    → r + start ≡ end
    → limit < r
    → r - limit < length c.bytes
    → Evicted limit r end (c ∷ cs) (drop_front (r - limit) c ∷ cs, limit)
unfolding bytes_of
cut_first limit r start end c cs he ch e over cut = record {
  count = omega arith;
  chain = (
    omega (arith, ch.0),
    omega (arith, length-drop (r - limit) c.bytes),
    Chain-from cs (start + length c.bytes) _ end (omega (arith, length-drop (r - limit) c.bytes))
        ch.2,
  );
  kept = sym (drop_within c.bytes (bytes_of cs) (r - limit) (omega arith));
}

popped_first :
    (limit r end : ℕ) (c : Chunk) (cs : List Chunk)
    → limit < r
    → length c.bytes ≤ r - limit
    → (out : List Chunk × ℕ) → Evicted limit (r - length c.bytes) end cs out
    → Evicted limit r end (c ∷ cs) out
unfolding bytes_of
popped_first limit r end c cs over pop out v = record {
  count = omega (arith, v.count);
  chain = v.chain;
  kept = v.kept ∙ sym (drop_past c.bytes (bytes_of cs) _ (r - out.1) (omega (arith, v.count)));
}

pub evict-Evicted :
    (limit r start end : ℕ) (cs : List Chunk)
    → IsNat64 limit
    → IsNat64 end
    → Chain start cs end
    → r + start ≡ end
    → Evicted limit r end cs (evict limit r cs)
evict-Evicted limit r start end [] hc he ch e =
    unfold evict in
    record {
      count = omega arith;
      chain = omega arith;
      kept = unfold bytes_of in sym (drop_all [] (r - r) (omega arith));
    }
evict-Evicted limit r start end (c ∷ cs) hc he ch e = elim (dec_lt limit r) [
  | no keep ↦
      rw (evict_keep limit r c cs hc (omega arith) (omega arith))
        (kept_whole limit r start end (c ∷ cs) ch e (omega arith))
  | yes over ↦ elim (dec_lt (r - limit) (length c.bytes)) [
    | yes cut ↦
        rw (evict_cut limit r c cs hc (omega arith) over cut small)
          (cut_first limit r start end c cs he ch e over cut)
    | no pop ↦ rw (evict_pop limit r c cs hc (omega arith) over (omega arith)) (
        popped_first limit r end c cs over (omega arith) (evict limit (r - length c.bytes) cs) (
          evict-Evicted limit (r - length c.bytes) (start + length c.bytes) end cs hc he ch.2
            (omega arith)))
  ]
]
  where
    small : IsNat64 (length c.bytes)
    small = omega (arith, Chain-length cs (start + length c.bytes) end ch.2)
