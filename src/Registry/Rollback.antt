-- ===== src/Registry/Rollback.antt =====
-- InitAll and StartAll of internal/core/module/registry.go undo what they did, and StopAll reaches
-- every module.
use mocktrue.Base.{◌≡◌, ◌⊎◌, inl, inr, refl, ap, sym, ◌∙◌, List, [], ◌∷◌, ◌++◌, append_assoc}
use mocktrue.Base.{append-nil, map, Bool, true, false, Option, none, some, if◌then◌else◌}
use mocktrue.Base.{Text, All, ok, err, Result-cases}
use mocktrue.Registry.{Registry, Error}
use mocktrue.Registry.Order.{order_locked}
use mocktrue.Registry.Lifecycle.{
  Call, init, start, stop, dispose, Outcome, done, failed, no_order, dispose_each, stop_each,
}
use mocktrue.Registry.Lifecycle.{
  keep_first, in_order, init_loop, start_loop, stop_loop, reversed, init_all, start_all, stop_all,
}

Works : (Text → Bool) → List Text → Type 0
Works fails ids = All (λ x. fails x ≡ false) ids

-- What the undoing of started modules and of initialised ones calls: the last of them first, each
-- once.
pub stopped_and_disposed : List Text → List Call
stopped_and_disposed [] = []
stopped_and_disposed (id ∷ ids) = stopped_and_disposed ids ++ (stop id ∷ dispose id ∷ [])

pub disposed : List Text → List Call
disposed [] = []
disposed (id ∷ ids) = disposed ids ++ (dispose id ∷ [])

stop_each-reversed :
    (ids behind : List Text)
    → stop_each (reversed ids behind) ≡ stopped_and_disposed ids ++ stop_each behind
unfolding reversed stop_each stopped_and_disposed
stop_each-reversed [] behind = refl
stop_each-reversed (id ∷ ids) behind =
    stop_each-reversed ids (id ∷ behind) ∙ sym (append_assoc (stopped_and_disposed ids) _ _)

dispose_each-reversed :
    (ids behind : List Text)
    → dispose_each (reversed ids behind) ≡ disposed ids ++ dispose_each behind
unfolding reversed dispose_each disposed
dispose_each-reversed [] behind = refl
dispose_each-reversed (id ∷ ids) behind =
    dispose_each-reversed ids (id ∷ behind) ∙ sym (append_assoc (disposed ids) _ _)

undone : (ids : List Text) → stop_each (reversed ids []) ≡ stopped_and_disposed ids
unfolding stop_each
undone ids = stop_each-reversed ids [] ∙ append-nil _

given_up : (ids : List Text) → dispose_each (reversed ids []) ≡ disposed ids
unfolding dispose_each
given_up ids = dispose_each-reversed ids [] ∙ append-nil _

init_loop_failing :
    (fails : Text → Bool) (before : List Text) (bad : Text) (after initialised : List Text)
    → Works fails before
    → fails bad ≡ true
    → init_loop fails (before ++ (bad ∷ after)) initialised ≡ (
      map init before ++ (init bad ∷ dispose bad ∷ dispose_each (reversed before initialised)),
      failed bad,
    )
unfolding init_loop reversed Works
init_loop_failing fails [] bad after initialised w b = rw b refl
init_loop_failing fails (x ∷ before) bad after initialised (wx, w) b =
    rw (wx, init_loop_failing fails before bad after (x ∷ initialised) w b) refl

start_loop_failing :
    (fails : Text → Bool) (before : List Text) (bad : Text) (after started : List Text)
    → Works fails before
    → fails bad ≡ true
    → start_loop fails (before ++ (bad ∷ after)) started
      ≡ (map start before ++ (start bad ∷ stop_each (reversed before started)), failed bad)
unfolding start_loop reversed Works
start_loop_failing fails [] bad after started w b = rw b refl
start_loop_failing fails (x ∷ before) bad after started (wx, w) b =
    rw (wx, start_loop_failing fails before bad after (x ∷ started) w b) refl

-- When a module fails to start, the modules before it have been started in order, and after the failed
-- start each of them is stopped and then disposed of, the last one first; no other call is made, and
-- the error of the module is returned. When a module fails in InitAll, it is disposed of, and then the
-- modules before it are, the last one first, with no other call behind their Init.
pub start_all_rollback :
    (ms : Registry) (visit before : List Text) (bad : Text) (after : List Text)
    (fails : Text → Bool)
    → order_locked ms visit ≡ ok (before ++ (bad ∷ after))
    → All (λ x. fails x ≡ false) before
    → fails bad ≡ true
    → (start_all ms visit fails
        ≡ (map start before ++ (start bad ∷ stopped_and_disposed before), failed bad))
      × (init_all ms visit fails
          ≡ (map init before ++ (init bad ∷ dispose bad ∷ disposed before), failed bad))
unfolding start_all init_all Works
start_all_rollback ms visit before bad after fails e w b = (
  rw (start_all, in_order, e, sym (undone before))
      (start_loop_failing fails before bad after [] w b),
  rw (init_all, in_order, e, sym (given_up before))
      (init_loop_failing fails before bad after [] w b),
)

-- The calls of StopAll for an order, and how it ends: the error of the first module that fails, which
-- is the last of the order to do so.
pub stopped : List Text → List Call
stopped [] = []
stopped (id ∷ ids) = stopped ids ++ (stop id ∷ [])

pub last_failing : (Text → Bool) → List Text → Option Text
last_failing fails [] = none
last_failing fails (id ∷ ids) = elim (last_failing fails ids) [
  | some bad ↦ some bad
  | none ↦ if fails id then some id else none
]

pub ends_with : Option Text → Outcome
ends_with none = done
ends_with (some bad) = failed bad

stop_loop_calls :
    (fails : Text → Bool) (ids : List Text) (first : Outcome)
    → (stop_loop fails ids first).0 ≡ map stop ids
unfolding stop_loop
stop_loop_calls fails [] first = refl
stop_loop_calls fails (x ∷ ids) first =
    ap (λ calls. stop x ∷ calls) (stop_loop_calls fails ids (keep_first first (fails x) x))

stopped-reversed :
    (ids behind : List Text) → map stop (reversed ids behind) ≡ stopped ids ++ map stop behind
unfolding reversed stopped
stopped-reversed [] behind = refl
stopped-reversed (id ∷ ids) behind =
    stopped-reversed ids (id ∷ behind) ∙ sym (append_assoc (stopped ids) _ _)

keep_first-ends_with :
    (o : Option Text) (b : Bool) (id : Text)
    → keep_first (ends_with o) b id
      ≡ ends_with (elim o [ some bad ↦ some bad | none ↦ if b then some id else none ])
unfolding keep_first ends_with
keep_first-ends_with none true id = refl
keep_first-ends_with none false id = refl
keep_first-ends_with (some bad) b id = refl

-- The loop over the modules behind a reversed prefix begins with the error of that prefix.
stop_loop_outcome :
    (fails : Text → Bool) (ids behind : List Text)
    → (stop_loop fails (reversed ids behind) done).1
      ≡ (stop_loop fails behind (ends_with (last_failing fails ids))).1
unfolding reversed stop_loop last_failing ends_with
stop_loop_outcome fails [] behind = refl
stop_loop_outcome fails (id ∷ ids) behind =
    stop_loop_outcome fails ids (id ∷ behind)
    ∙ ap (λ first. (stop_loop fails behind first).1)
        (keep_first-ends_with (last_failing fails ids) (fails id) id)

stop_loop_lem :
    (fails : Text → Bool) (order : List Text)
    → stop_loop fails (reversed order []) done
      ≡ (stopped order, ends_with (last_failing fails order))
unfolding stop_loop
stop_loop_lem fails order =
    both
      (stop_loop_calls fails (reversed order []) done ∙ (stopped-reversed order [] ∙ append-nil _))
      (stop_loop_outcome fails order [])
  where
    both : {A B : Type 0} {p : A × B} {a : A} {y : B} → p.0 ≡ a → p.1 ≡ y → p ≡ (a, y)
    both h k = λ i. (h i, k i)

-- Where the modules have an order, StopAll stops each of them, the last of the order first, whichever
-- fail, and returns the first error that it meets, or none when none fails. Where they have no order,
-- it stops nothing and returns that error.
pub stop_all_lem :
    (ms : Registry) (visit : List Text) (fails : Text → Bool)
    → ((order : List Text) × (order_locked ms visit ≡ ok order)
        × (stop_all ms visit fails ≡ (stopped order, ends_with (last_failing fails order))))
      ⊎ ((e : Error) × (order_locked ms visit ≡ err e)
          × (stop_all ms visit fails ≡ ([], no_order e)))
unfolding stop_all
stop_all_lem ms visit fails = elim (Result-cases (order_locked ms visit)) [
  | inl (order, e) ↦ inl (order, e, rw (stop_all, in_order, e) (stop_loop_lem fails order))
  | inr (x, e) ↦ inr (x, e, rw (stop_all, in_order, e) refl)
]
