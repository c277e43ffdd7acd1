-- ===== src/Buffer/Index/Laws.antt =====
-- The two searches of the index against a scan of the entries.
use mocktrue.Base.{ℕ, zero, suc, ◌+◌, ◌-◌, ◌/◌, ◌<◌, ◌≤◌, ◌≡◌, refl, sym, arith}
use mocktrue.Base.{List, [], ◌∷◌, Bool, true, false, Option, none, some, Bool-cases, inl, inr}
use mocktrue.Base.{◌==◌, if◌then◌else◌, length, get_or, ltb-false, lt→ltb, All}
use mocktrue.Base.Int64.{lt64, le64}
use native.Mathlib.Decide.{dec_lt}
use mocktrue.Buffer.Index.{IndexEntry, no_entry, search_from, sort_search, later_than, find_by_ts}
use mocktrue.Buffer.Index.{find_by_frame_no, insert}

-- `r` is where `f` turns true among the numbers below `n`.
record Turns (f : ℕ → Bool) (n r : ℕ) : Type 0 where
  below : (k : ℕ) → k < r → f k ≡ false
  above : (k : ℕ) → r ≤ k → k < n → f k ≡ true

abbrev Monotone : (ℕ → Bool) → ℕ → Type 0
Monotone f n = (k l : ℕ) → k ≤ l → l < n → f k ≡ true → f l ≡ true

search_from-Turns :
    (fuel : ℕ) (f : ℕ → Bool) (n i j : ℕ)
    → Monotone f n
    → i ≤ j
    → j ≤ n
    → j - i ≤ fuel
    → ((k : ℕ) → k < i → f k ≡ false)
    → ((k : ℕ) → j ≤ k → k < n → f k ≡ true)
    → Turns f n (search_from fuel f i j)
unfolding search_from
search_from-Turns zero f n i j mono hij hj enough lo hi = record {
  below = lo;
  above = λ k a b. hi k (omega arith) b;
}
search_from-Turns (suc fuel) f n i j mono hij hj enough lo hi = elim (dec_lt i j) [
  | no e ↦
      rw (ltb-false i j (omega arith))
        (record { below = lo; above = λ k a b. hi k (omega arith) b })
  | yes h ↦ elim (Bool-cases (f ((i + j) / 2))) [
    | inl t ↦
        rw (lt→ltb i j h, t)
          (search_from-Turns fuel f n i ((i + j) / 2) mono (omega arith) (omega arith) (omega arith)
            lo (λ k a b. mono ((i + j) / 2) k a b t))
    | inr z ↦
        rw (lt→ltb i j h, z)
          (search_from-Turns fuel f n ((i + j) / 2 + 1) j mono (omega arith) hj (omega arith)
            (λ k a. not_before k ((i + j) / 2) (omega arith) (omega arith) z) hi)
  ]
]
  where
    not_before : (k l : ℕ) → k ≤ l → l < n → f l ≡ false → f k ≡ false
    not_before k l a b z = elim (Bool-cases (f k)) [
      | inl t ↦ absurd (cc (mono k l a b t, z))
      | inr w ↦ w
    ]

sort_search-Turns : (n : ℕ) (f : ℕ → Bool) → Monotone f n → Turns f n (sort_search n f)
unfolding sort_search
sort_search-Turns n f mono =
    search_from-Turns n f n 0 n mono (omega arith) (omega arith) (omega arith)
      (λ k a. absurd (omega arith)) (λ k a b. absurd (omega arith))

-- Timestamps that never go back.
abbrev pub IsSorted : List IndexEntry → Type 0
IsSorted [] = Unit
IsSorted (e ∷ es) = All (λ x. le64 e.ts x.ts ≡ true) es × IsSorted es

le64_refl : (a : ℕ) → le64 a a ≡ true
unfolding le64 lt64
le64_refl a = ground arith

lt64-le64 : (a b c : ℕ) → lt64 a b ≡ true → le64 b c ≡ true → lt64 a c ≡ true
unfolding le64 lt64
lt64-le64 a b c h g = ground arith

All-get :
    (P : IndexEntry → Type 0) (es : List IndexEntry) (k : ℕ)
    → All P es
    → k < length es
    → P (get_or es k no_entry)
All-get P [] k h b = absurd (omega arith)
All-get P (e ∷ es) zero h b = h.0
All-get P (e ∷ es) (suc k) h b = All-get P es k h.1 (omega arith)

later_than-Monotone :
    (ts : ℕ) (es : List IndexEntry) → IsSorted es → Monotone (later_than ts es) (length es)
later_than-Monotone ts [] s k l h b t = absurd (omega arith)
later_than-Monotone ts (e ∷ es) s zero zero h b t = t
later_than-Monotone ts (e ∷ es) s zero (suc l) h b t =
    lt64-le64 ts e.ts (get_or es l no_entry).ts t
      (All-get (λ x. le64 e.ts x.ts ≡ true) es l s.0 (omega arith))
later_than-Monotone ts (e ∷ es) s (suc k) zero h b t = absurd (omega arith)
later_than-Monotone ts (e ∷ es) s (suc k) (suc l) h b t =
    later_than-Monotone ts es s.1 k l (omega arith) (omega arith) t

-- The last entry that is not later than `ts`, found by a scan of them all.
abbrev pub last_until : List IndexEntry → ℕ → Option IndexEntry
last_until [] ts = none
last_until (e ∷ es) ts = elim (last_until es ts) [
  | some x ↦ some x
  | none ↦ if le64 e.ts ts then some e else none
]

last_until-Turns :
    (es : List IndexEntry) (ts r : ℕ)
    → r ≤ length es
    → Turns (later_than ts es) (length es) r
    → last_until es ts ≡ (if r == 0 then none else some (get_or es (r - 1) no_entry))
unfolding le64
last_until-Turns [] ts r hr t = ground arith
last_until-Turns (e ∷ es) ts zero hr t =
    ground
      (arith, last_until-Turns es ts 0 (omega arith) later, t.above 0 (omega arith) (omega arith))
  where
    later : Turns (later_than ts es) (length es) 0
    later = record {
      below = λ k a. absurd (omega arith);
      above = λ k a b. t.above (suc k) (omega arith) (omega arith);
    }
last_until-Turns (e ∷ es) ts (suc zero) hr t =
    ground (arith, last_until-Turns es ts 0 (omega arith) later, t.below 0 (omega arith))
  where
    later : Turns (later_than ts es) (length es) 0
    later = record {
      below = λ k a. absurd (omega arith);
      above = λ k a b. t.above (suc k) (omega arith) (omega arith);
    }
last_until-Turns (e ∷ es) ts (suc (suc r)) hr t =
    ground (arith, last_until-Turns es ts (suc r) (omega arith) later)
  where
    later : Turns (later_than ts es) (length es) (suc r)
    later = record {
      below = λ k a. t.below (suc k) (omega arith);
      above = λ k a b. t.above (suc k) (omega arith) (omega arith);
    }

search_from-bound : (fuel : ℕ) (f : ℕ → Bool) (i j : ℕ) → i ≤ j → search_from fuel f i j ≤ j
unfolding search_from
search_from-bound zero f i j h = h
search_from-bound (suc fuel) f i j h = elim (dec_lt i j) [
  | no e ↦ rw (ltb-false i j (omega arith)) h
  | yes l ↦ elim (Bool-cases (f ((i + j) / 2))) [
    | inl t ↦
        rw (lt→ltb i j l, t) (omega (arith, search_from-bound fuel f i ((i + j) / 2) (omega arith)))
    | inr z ↦ rw (lt→ltb i j l, z) (search_from-bound fuel f ((i + j) / 2 + 1) j (omega arith))
  ]
]

-- On timestamps that never go back the binary search of `FindByTs` gives the entry that a scan of all
-- entries gives: the last one that is not later than `ts`.
pub find_by_ts_lem :
    (entries : List IndexEntry) (ts : ℕ)
    → IsSorted entries
    → find_by_ts entries ts ≡ last_until entries ts
unfolding find_by_ts sort_search
find_by_ts_lem [] ts s = refl
find_by_ts_lem (e ∷ es) ts s = rw not_empty (
    sym (
      last_until-Turns (e ∷ es) ts _
        (search_from-bound n (later_than ts (e ∷ es)) 0 n (omega arith))
        (sort_search-Turns n (later_than ts (e ∷ es)) (later_than-Monotone ts (e ∷ es) s))))
  where
    n : ℕ
    n = length (e ∷ es)

    not_empty : (length (e ∷ es) == 0) ≡ false
    not_empty = ground arith

-- `FindByFrameNo` answers with the entry that was inserted first of those with the number: a later
-- insertion counts only where none was there.
pub find_by_frame_no-insert :
    (entries : List IndexEntry) (entry : IndexEntry) (frame_no : ℕ)
    → find_by_frame_no (insert entries entry) frame_no ≡ elim (find_by_frame_no entries frame_no) [
      | some earlier ↦ some earlier
      | none ↦ if entry.frame_no == frame_no then some entry else none
    ]
unfolding find_by_frame_no insert
find_by_frame_no-insert [] entry n = refl
find_by_frame_no-insert (e ∷ es) entry n = ground (arith, find_by_frame_no-insert es entry n)
