-- ===== src/Buffer/Ring/Copying.antt =====
-- The copy loop of `Query`: the bytes it copies and where its pieces lie.
use mocktrue.Base.{ℕ, ◌+◌, ◌-◌, ◌<◌, ◌≤◌, ◌≡◌, refl, ap, sym, ◌∙◌, arith}
use mocktrue.Base.{List, [], ◌∷◌, ◌++◌}
use mocktrue.Base.{length, take, drop, length-drop, drop_within}
use mocktrue.Base.{take_over, length-take, take_append_lem, ltb-false, lt→ltb, ==_ne}
use mocktrue.Base.Int64.{add64, IsNat64, lt64_value}
use mocktrue.Buffer.Ring.{Chunk, SnapshotChunk, copy_from, joined}
use mocktrue.Buffer.Ring.Chain.{bytes_of, Chain, Chain-length}
use mathlib.Core.Path.{subst}
use native.Mathlib.Decide.{dec_lt}

pub nothing_left : (skip : ℕ) (cs : List Chunk) → copy_from 0 skip cs ≡ []
unfolding copy_from
nothing_left skip [] = refl
nothing_left skip (c ∷ cs) = refl

-- One round of the copy loop.
module _ (n skip : ℕ) (c : Chunk) (cs : List Chunk) (hn : IsNat64 n)
    (hl : IsNat64 (length c.bytes)) where
  abbrev left : ℕ
  left = length c.bytes - skip

  abbrev piece : ℕ → SnapshotChunk
  piece k = record {
    offset = add64 c.base skip;
    timestamp = c.timestamp;
    bytes = take k (drop skip c.bytes);
  }

  copy_some : 0 < n → n < left → copy_from n skip (c ∷ cs) ≡ piece n ∷ []
  unfolding copy_from
  copy_some p h =
      rw (lt64_value n left hn (omega arith), lt→ltb n left h, ==_ne n 0 (λ e. omega arith))
        (ap (λ t. piece n ∷ t) (ap (λ k. copy_from k 0 cs) none_left ∙ nothing_left 0 cs))
    where
      none_left : n - n ≡ 0
      none_left = omega arith

  copy_whole : 0 < n → left ≤ n → copy_from n skip (c ∷ cs) ≡ piece left ∷ copy_from (n - left) 0 cs
  unfolding copy_from
  copy_whole p h =
      rw (lt64_value n left hn (omega arith), ltb-false n left h, ==_ne n 0 (λ e. omega arith))

  copy_step :
      joined (copy_from n skip (c ∷ cs))
      ≡ take n (drop skip c.bytes) ++ joined (copy_from (n - left) 0 cs)
  unfolding joined
  copy_step = elim (dec_lt n left) [
    | yes h ↦ elim (dec_lt 0 n) [
      | yes p ↦ rw (copy_some p h, out_of_bytes h, nothing_left 0 cs)
      | no z ↦ rw (none_more z, empty_count z, nothing_left skip (c ∷ cs), nothing_left 0 cs)
    ]
    | no h ↦ elim (dec_lt 0 n) [
      | yes p ↦
          rw (copy_whole p (omega arith))
            (ap (λ t. t ++ joined (copy_from (n - left) 0 cs)) (whole (omega arith)))
      | no z ↦ rw (none_more z, empty_count z, nothing_left skip (c ∷ cs), nothing_left 0 cs)
    ]
  ]
    where
      out_of_bytes : n < left → n - left ≡ 0
      out_of_bytes h = omega arith

      none_more : ¬ (0 < n) → n - left ≡ 0
      none_more z = omega arith

      empty_count : ¬ (0 < n) → n ≡ 0
      empty_count z = omega arith

      length-left : length (drop skip c.bytes) ≡ left
      length-left = length-drop skip c.bytes

      whole : left ≤ n → take left (drop skip c.bytes) ≡ take n (drop skip c.bytes)
      whole h =
          take_over (drop skip c.bytes) left (omega (arith, length-left))
          ∙ sym (take_over (drop skip c.bytes) n (omega (arith, length-left)))

-- The sizes of the chunks of a chain are small.
pub first_small :
    (start end : ℕ) (c : Chunk) (cs : List Chunk)
    → IsNat64 end
    → Chain start (c ∷ cs) end
    → IsNat64 (length c.bytes)
first_small s e c cs he ch = omega (arith, Chain-length cs (s + length c.bytes) e ch.2)

pub copy_from_bytes :
    (n start end : ℕ) (cs : List Chunk)
    → IsNat64 n
    → IsNat64 end
    → Chain start cs end
    → joined (copy_from n 0 cs) ≡ take n (bytes_of cs)
unfolding bytes_of
copy_from_bytes n s e [] hn he ch = unfold copy_from joined in sym (take_over [] n (omega arith))
copy_from_bytes n s e (c ∷ cs) hn he ch =
    copy_step n 0 c cs hn (first_small s e c cs he ch)
    ∙ ap (λ t. take n c.bytes ++ t)
        (copy_from_bytes (n - (length c.bytes - 0)) (s + length c.bytes) e cs (omega arith) he ch.2)
    ∙ ap (λ k. take n c.bytes ++ take (n - k) (bytes_of cs)) whole
    ∙ sym (take_append_lem c.bytes (bytes_of cs) n)
  where
    whole : length c.bytes - 0 ≡ length c.bytes
    whole = omega arith

-- The copy from inside the first chunk.
pub copy_from_inside :
    (n skip start end : ℕ) (c : Chunk) (cs : List Chunk)
    → IsNat64 n
    → IsNat64 end
    → Chain start (c ∷ cs) end
    → skip ≤ length c.bytes
    → joined (copy_from n skip (c ∷ cs)) ≡ take n (drop skip (bytes_of (c ∷ cs)))
unfolding bytes_of
copy_from_inside n skip s e c cs hn he ch hs =
    copy_step n skip c cs hn (first_small s e c cs he ch)
    ∙ ap (λ t. take n (drop skip c.bytes) ++ t)
        (copy_from_bytes (n - (length c.bytes - skip)) (s + length c.bytes) e cs (omega arith) he
          ch.2)
    ∙ ap (λ k. take n (drop skip c.bytes) ++ take (n - k) (bytes_of cs))
        (sym (length-drop skip c.bytes))
    ∙ sym (take_append_lem (drop skip c.bytes) (bytes_of cs) n)
    ∙ ap (take n) (sym (drop_within c.bytes (bytes_of cs) skip hs))

-- Pieces that follow one another from `offset` on.
abbrev pub Pieces : ℕ → List SnapshotChunk → Type 0
Pieces offset [] = Unit
Pieces offset (p ∷ ps) = (p.offset ≡ offset) × Pieces (offset + length p.bytes) ps

pub Pieces-from : (ps : List SnapshotChunk) (a b : ℕ) → a ≡ b → Pieces a ps → Pieces b ps
Pieces-from ps a b e h = subst (λ k. Pieces k ps) e h

pub Pieces-step :
    (n skip start end : ℕ) (c : Chunk) (cs : List Chunk)
    → IsNat64 n
    → IsNat64 end
    → Chain start (c ∷ cs) end
    → skip ≤ length c.bytes
    → Pieces (start + length c.bytes) (copy_from (n - (length c.bytes - skip)) 0 cs)
    → Pieces (start + skip) (copy_from n skip (c ∷ cs))
Pieces-step n skip s e c cs hn he ch hs later = elim (dec_lt 0 n) [
  | no z ↦ rw (empty_count z, nothing_left skip (c ∷ cs)) tt
  | yes p ↦ elim (dec_lt n (length c.bytes - skip)) [
    | yes h ↦ rw (copy_some n skip c cs hn small p h) (offset_value, tt)
    | no h ↦ rw (copy_whole n skip c cs hn small p (omega arith)) (
      offset_value,
      Pieces-from _ (s + length c.bytes) _ (omega (arith, whole, length-drop skip c.bytes)) later,
    )
  ]
]
  where
    small : IsNat64 (length c.bytes)
    small = first_small s e c cs he ch

    empty_count : ¬ (0 < n) → n ≡ 0
    empty_count z = omega arith

    offset_value : add64 c.base skip ≡ s + skip
    offset_value = omega (arith, ch.0, Chain-length cs (s + length c.bytes) e ch.2)

    whole : length (take (length c.bytes - skip) (drop skip c.bytes)) ≡ length c.bytes - skip
    whole =
        length-take (length c.bytes - skip) (drop skip c.bytes)
          (omega (arith, length-drop skip c.bytes))

pub copy_from-Pieces :
    (n start end : ℕ) (cs : List Chunk)
    → IsNat64 n
    → IsNat64 end
    → Chain start cs end
    → Pieces start (copy_from n 0 cs)
copy_from-Pieces n s e [] hn he ch = unfold copy_from in tt
copy_from-Pieces n s e (c ∷ cs) hn he ch = Pieces-from _ (s + 0) s (omega arith) (
    Pieces-step n 0 s e c cs hn he ch (omega arith)
      (copy_from-Pieces (n - (length c.bytes - 0)) (s + length c.bytes) e cs (omega arith) he ch.2))
