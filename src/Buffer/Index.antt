-- ===== src/Buffer/Index.antt =====
-- buffer/index.go: the sparse index, the entries in the order of insertion.
pub mod Laws
mod Tests
use mocktrue.Base.{ℕ, zero, suc, ◌+◌, ◌-◌, ◌/◌, List, [], ◌∷◌, ◌++◌, Bool, Option, none, some}
use mocktrue.Base.{◌==◌, ltb, if◌then◌else◌, length, get_or}
use mocktrue.Base.Int64.{lt64}

pub record IndexEntry : Type 0 where
  pub offset : ℕ
  pub ts : ℕ
  pub frame_no : ℕ

abbrev pub no_entry : IndexEntry
no_entry = record { offset = 0; ts = 0; frame_no = 0 }

abbrev pub new_index : List IndexEntry
new_index = []

unfoldable pub insert : List IndexEntry → IndexEntry → List IndexEntry
insert entries entry = entries ++ (entry ∷ [])

-- The loop of Go's `sort.Search` between `i` and `j`, where each round halves the range; the number
-- of entries is fuel enough.
pub search_from : ℕ → (ℕ → Bool) → ℕ → ℕ → ℕ
search_from zero f i j = i
search_from (suc fuel) f i j =
    let h = (i + j) / 2 in
    let lower = search_from fuel f i h in
    let upper = search_from fuel f (h + 1) j in if ltb i j then if f h then lower else upper else i

pub sort_search : ℕ → (ℕ → Bool) → ℕ
sort_search n f = search_from n f 0 n

-- `idx.entries[i].Ts > ts`
abbrev pub later_than : ℕ → List IndexEntry → ℕ → Bool
later_than ts entries i = lt64 ts (get_or entries i no_entry).ts

unfoldable pub find_by_ts : List IndexEntry → ℕ → Option IndexEntry
find_by_ts entries ts =
    let i = sort_search (length entries) (later_than ts entries) in
    if length entries == 0
    then none
    else if i == 0
    then none
    else some (get_or entries (i - 1) no_entry)

unfoldable pub find_by_frame_no : List IndexEntry → ℕ → Option IndexEntry
find_by_frame_no [] frame_no = none
find_by_frame_no (entry ∷ rest) frame_no =
    if entry.frame_no == frame_no then some entry else find_by_frame_no rest frame_no

unfoldable pub reset : List IndexEntry → List IndexEntry
reset entries = []
