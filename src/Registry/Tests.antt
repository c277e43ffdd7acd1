-- ===== src/Registry/Tests.antt =====
-- Three modules, each of which needs those that the application registers before it.
use mocktrue.Base.{
  ◌≡◌, ◌≢◌, ◌⊎◌, refl, List, [], ◌∷◌, ◌++◌, map, Bool, true, false, Text, codes, text_eq, length,
  All, arith, ok, err,
}
use mocktrue.Registry.{Module, Registry, lookup, register, out_of_fuel, Error}
use mocktrue.Registry.Names.{Distinct}
use mocktrue.Registry.Edges.{names}
use mocktrue.Registry.Order.{add_edges, add_modules, ready, release, drain, order_locked}
use mocktrue.Registry.Lifecycle.{
  start, stop, init, dispose, failed, no_order, start_all, init_all, stop_all, reversed, stop_loop,
  keep_first,
}
use mocktrue.Registry.Sorted.{IsVisit, Ordered, order_locked-Ordered, order_locked_ends}
use mocktrue.Registry.Acyclic.{IsAcyclic, order_locked_acyclic}
use mocktrue.Registry.Rollback.{
  start_all_rollback, stop_all_lem, stopped_and_disposed, disposed, stopped, last_failing,
  ends_with,
}
use mocktrue.Registry.Registered.{empty, registered, Registered-Distinct}

abbrev core : Module
core = record { id = codes "core"; dependencies = [] }

abbrev serial : Module
serial = record { id = codes "serial"; dependencies = codes "core" ∷ [] }

abbrev server : Module
server = record { id = codes "mcpserver"; dependencies = codes "serial" ∷ codes "core" ∷ [] }

abbrev three : Registry
three = server ∷ serial ∷ core ∷ []

abbrev visit : List Text
visit = serial.id ∷ core.id ∷ server.id ∷ []

abbrev sorted : List Text
sorted = core.id ∷ serial.id ∷ server.id ∷ []

three_unique : Distinct (names three)
unfolding text_eq
three_unique = (refl, (refl, (refl, tt)))

three-visit : IsVisit three visit
unfolding text_eq
three-visit = record { once = (refl, (refl, (refl, tt))); all = λ x. ground arith }

three_order : order_locked three visit ≡ ok sorted
unfolding order_locked add_modules add_edges lookup ready release drain text_eq
three_order = refl

three-IsAcyclic : IsAcyclic three length
unfolding text_eq
three-IsAcyclic = record { registered = ground arith; lower = ground arith }

order_locked-Ordered_example : Ordered three sorted
order_locked-Ordered_example =
    order_locked-Ordered three visit sorted three_unique three-visit three_order

order_locked_ends_example : order_locked three visit ≢ err out_of_fuel
order_locked_ends_example = order_locked_ends three visit three_unique three-visit

order_locked_acyclic_example : (order : List Text) × (order_locked three visit ≡ ok order)
order_locked_acyclic_example =
    order_locked_acyclic three visit length three_unique three-visit three-IsAcyclic

abbrev broken : Text → Bool
broken x = text_eq x (codes "mcpserver")

broken_last : (broken core.id ≡ false) × (broken serial.id ≡ false) × (broken server.id ≡ true)
unfolding text_eq
broken_last = (refl, refl, refl)

start_all_rollback_example :
    (start_all three visit broken ≡ (
      map start (core.id ∷ serial.id ∷ [])
          ++ (start server.id ∷ stopped_and_disposed (core.id ∷ serial.id ∷ [])),
      failed server.id,
    ))
    × (init_all three visit broken ≡ (
      map init (core.id ∷ serial.id ∷ [])
          ++ (init server.id ∷ dispose server.id ∷ disposed (core.id ∷ serial.id ∷ [])),
      failed server.id,
    ))
start_all_rollback_example =
    start_all_rollback three visit (core.id ∷ serial.id ∷ []) server.id [] broken three_order
      (broken_last.0, (broken_last.1, tt)) broken_last.2

stop_all_lem_example :
    ((order : List Text) × (order_locked three visit ≡ ok order)
      × (stop_all three visit broken ≡ (stopped order, ends_with (last_failing broken order))))
    ⊎ ((e : Error) × (order_locked three visit ≡ err e)
        × (stop_all three visit broken ≡ ([], no_order e)))
stop_all_lem_example = stop_all_lem three visit broken

all_stopped :
    stop_all three visit broken
    ≡ (stop server.id ∷ stop serial.id ∷ stop core.id ∷ [], failed server.id)
unfolding stop_all reversed stop_loop keep_first order_locked add_modules add_edges lookup ready
    release drain text_eq
all_stopped = refl

core_registered : register core [] ≡ ok (core ∷ [])
unfolding register lookup text_eq
core_registered = refl

Registered-Distinct_example :
    Distinct (names (core ∷ [])) × All (λ m. text_eq m.id [] ≡ false) (core ∷ [])
Registered-Distinct_example =
    Registered-Distinct (core ∷ []) (registered core [] (core ∷ []) empty core_registered)
