-- ===== src/Registry/Lifecycle.antt =====
-- InitAll, StartAll, StopAll and DisposeAll: the calls of the modules in the order of `orderLocked`.
use mocktrue.Base.{List, [], ◌∷◌, Bool, Text, ok, err, if◌then◌else◌}
use mocktrue.Registry.{Registry, Error}
use mocktrue.Registry.Order.{order_locked}

-- The calls that a module sees.
pub data Call : Type 0 where
  init start stop dispose : Text → Call

-- How a lifecycle method ends.
pub data Outcome : Type 0 where
  done : Outcome
  failed : Text → Outcome
  no_order : Error → Outcome

-- `for i := len(initialised) - 1; i >= 0; i--`: the list has the last one first.
unfoldable pub dispose_each : List Text → List Call
dispose_each [] = []
dispose_each (id ∷ ids) = dispose id ∷ dispose_each ids

unfoldable pub stop_each : List Text → List Call
stop_each [] = []
stop_each (id ∷ ids) = stop id ∷ dispose id ∷ stop_each ids

unfoldable pub keep_first : Outcome → Bool → Text → Outcome
keep_first done fails id = if fails then failed id else done
keep_first first fails id = first

-- `fails` tells of which modules the call returns an error.
module _ (fails : Text → Bool) where
  unfoldable pub init_loop : List Text → List Text → List Call × Outcome
  init_loop [] initialised = ([], done)
  init_loop (id ∷ ids) initialised =
      let (calls, outcome) = init_loop ids (id ∷ initialised) in
      if fails id
      then (init id ∷ dispose id ∷ dispose_each initialised, failed id)
      else (init id ∷ calls, outcome)

  unfoldable pub start_loop : List Text → List Text → List Call × Outcome
  start_loop [] started = ([], done)
  start_loop (id ∷ ids) started =
      let (calls, outcome) = start_loop ids (id ∷ started) in
      if fails id then (start id ∷ stop_each started, failed id) else (start id ∷ calls, outcome)

  -- The first error is kept.
  unfoldable pub stop_loop : List Text → Outcome → List Call × Outcome
  unfolding keep_first
  stop_loop [] first = ([], first)
  stop_loop (id ∷ ids) first =
      let (calls, outcome) = stop_loop ids (keep_first first (fails id) id) in
      (stop id ∷ calls, outcome)

unfoldable pub reversed : List Text → List Text → List Text
reversed [] behind = behind
reversed (id ∷ ids) behind = reversed ids (id ∷ behind)

-- A method without an order calls nothing.
abbrev pub in_order : Registry → List Text → (List Text → List Call × Outcome) → List Call × Outcome
in_order ms visit run = elim (order_locked ms visit) [
  | ok order ↦ run order
  | err e ↦ ([], no_order e)
]

unfoldable pub init_all : Registry → List Text → (Text → Bool) → List Call × Outcome
init_all ms visit fails = in_order ms visit λ order. init_loop fails order []

unfoldable pub start_all : Registry → List Text → (Text → Bool) → List Call × Outcome
start_all ms visit fails = in_order ms visit λ order. start_loop fails order []

unfoldable pub stop_all : Registry → List Text → (Text → Bool) → List Call × Outcome
unfolding reversed
stop_all ms visit fails = in_order ms visit λ order. stop_loop fails (reversed order []) done

unfoldable pub dispose_all : Registry → List Text → List Call
unfolding reversed
dispose_all ms visit = elim (order_locked ms visit) [
  | ok order ↦ dispose_each (reversed order [])
  | err _ ↦ []
]
