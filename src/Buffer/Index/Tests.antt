-- ===== src/Buffer/Index/Tests.antt =====
-- An index of three entries, two of them with one time.
use mocktrue.Base.{ℕ, ◌≡◌, refl, List, [], ◌∷◌, some}
use mocktrue.Base.Int64.{lt64, le64}
use mocktrue.Buffer.Index.{IndexEntry, find_by_ts}
use mocktrue.Buffer.Index.Laws.{IsSorted, last_until, find_by_ts_lem}

abbrev entry : ℕ → ℕ → ℕ → IndexEntry
entry offset ts frame_no = record { offset = offset; ts = ts; frame_no = frame_no }

abbrev three : List IndexEntry
three = entry 0 10 1 ∷ entry 8 20 2 ∷ entry 16 20 3 ∷ []

three-IsSorted : IsSorted three
unfolding le64 lt64
three-IsSorted = ((refl, (refl, tt)), ((refl, tt), (tt, tt)))

find_by_ts_lem_example : find_by_ts three 25 ≡ last_until three 25
find_by_ts_lem_example = find_by_ts_lem three 25 three-IsSorted

last_of_equals : last_until three 25 ≡ some (entry 16 20 3)
unfolding le64 lt64
last_of_equals = refl
