-- ===== src/Buffer/Ring/Tests.antt =====
-- A buffer of four bytes that six pass through.
use mocktrue.Base.{ℕ, ◌≡◌, refl, arith, List, [], ◌∷◌}
use mocktrue.Base.Int64.{lt64, le64}
use mocktrue.Buffer.Ring.{Chunk, RingBuffer, new_ring, append, evict, clamp_chunk, query}
use mocktrue.Buffer.Ring.{joined, copy_from, copy_range, find_start, starts_after}
use mocktrue.Buffer.Ring.Represents.{Represents}
use mocktrue.Buffer.Ring.Appending.{append-Represents}
use mocktrue.Buffer.Ring.Query.{Answers, query-Answers}
use mocktrue.Buffer.Ring.History.{Reached, created, appended, Reached-Represents}

abbrev three : Chunk
three = record { seq = 0; base = 0; timestamp = []; bytes = 1 ∷ 2 ∷ 3 ∷ [] }

abbrev next_three : Chunk
next_three = record { seq = 1; base = 3; timestamp = []; bytes = 4 ∷ 5 ∷ 6 ∷ [] }

abbrev after_three : RingBuffer
after_three = append (new_ring 4) three

abbrev after_six : RingBuffer
after_six = append after_three next_three

abbrev six : List ℕ
six = 1 ∷ 2 ∷ 3 ∷ 4 ∷ 5 ∷ 6 ∷ []

held : after_six.chunks ≡ record three { base = 2; bytes = 3 ∷ [] } ∷ next_three ∷ []
unfolding append new_ring evict clamp_chunk lt64 le64
held = refl

read : (query after_six 2 3).bytes ≡ 3 ∷ 4 ∷ 5 ∷ []
unfolding query copy_range copy_from find_start starts_after joined append new_ring evict
    clamp_chunk lt64 le64
read = refl

total_three : next_three.base ≡ after_three.total
unfolding append new_ring evict clamp_chunk lt64 le64
total_three = refl

total_none : three.base ≡ (new_ring 4).total
unfolding new_ring
total_none = refl

Reached-three : Reached after_three (three.bytes)
Reached-three = appended (new_ring 4) [] three (created 4 (omega arith)) total_none (omega arith)

Reached-Represents_example : Represents after_six six
Reached-Represents_example =
    Reached-Represents after_six six
      (appended after_three three.bytes next_three Reached-three total_three (omega arith))

append-Represents_example : Represents after_six six
append-Represents_example =
    append-Represents after_three next_three three.bytes
      (Reached-Represents after_three three.bytes Reached-three) total_three (omega arith)

six-Represents : Represents after_six six
six-Represents =
    Reached-Represents after_six six
      (appended after_three three.bytes next_three Reached-three total_three (omega arith))

query-Answers_example : Answers after_six six 2 3 (query after_six 2 3)
query-Answers_example = query-Answers after_six six six-Represents 2 3 (omega arith) (omega arith)
