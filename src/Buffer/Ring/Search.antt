-- ===== src/Buffer/Ring/Search.antt =====
-- The search of `Query` for the chunk that holds the offset.
use mocktrue.Base.{ℕ, ◌+◌, ◌-◌, ◌<◌, ◌≤◌, ◌≡◌, refl, ◌∙◌, arith}
use mocktrue.Base.{List, [], ◌∷◌}
use mocktrue.Base.{length, drop, drop_past}
use mocktrue.Base.{ltb-false, lt→ltb}
use mocktrue.Base.Int64.{add64, IsNat64, lt64_value}
use mocktrue.Buffer.Ring.{Chunk, find_start}
use mocktrue.Buffer.Ring.Chain.{bytes_of, Chain, Chain-length}
use native.Mathlib.Decide.{dec_lt}

-- Where the search stops: a chunk that holds `offset`, with the rest of the chain behind it.
pub record Start (offset start end : ℕ) (cs : List Chunk) : Type 0 where
  pub first : Chunk
  pub rest : List Chunk
  pub at : ℕ
  pub result : find_start offset cs ≡ first ∷ rest
  pub chain : Chain at (first ∷ rest) end
  pub below : at ≤ offset
  pub above : offset < at + length first.bytes
  pub same : drop (offset - start) (bytes_of cs) ≡ drop (offset - at) (bytes_of (first ∷ rest))

pub find_start-Start :
    (offset start end : ℕ) (cs : List Chunk)
    → IsNat64 end
    → Chain start cs end
    → start ≤ offset
    → offset < end
    → Start offset start end cs
unfolding find_start bytes_of
find_start-Start o s e [] he ch lo hi = absurd (omega arith)
find_start-Start o s e (c ∷ cs) he ch lo hi = elim (dec_lt o (s + length c.bytes)) [
  | yes here ↦ record {
    first = c;
    rest = cs;
    at = s;
    result =
        rw (end_value, lt64_value o (s + length c.bytes) (omega arith) end_small, lt→ltb o _ here);
    chain = ch;
    below = lo;
    above = here;
    same = refl;
  }
  | no past ↦
      let next = find_start-Start o (s + length c.bytes) e cs he ch.2 (omega arith) hi in
      record {
        first = next.first;
        rest = next.rest;
        at = next.at;
        result =
            rw
              (
                end_value,
                lt64_value o (s + length c.bytes) (omega arith) end_small,
                ltb-false o (s + length c.bytes) (omega arith),
              )
              next.result;
        chain = next.chain;
        below = next.below;
        above = next.above;
        same =
            drop_past c.bytes (bytes_of cs) (o - (s + length c.bytes)) (o - s) (omega arith)
            ∙ next.same;
      }
]
  where
    end_small : IsNat64 (s + length c.bytes)
    end_small = omega (arith, Chain-length cs (s + length c.bytes) e ch.2)

    end_value : add64 c.base (length c.bytes) ≡ s + length c.bytes
    end_value = omega (arith, ch.0, end_small)
