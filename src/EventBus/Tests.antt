-- ===== src/EventBus/Tests.antt =====
-- A bus whose handlers write numbers down; the second one panics.
use mocktrue.Base.{
  ℕ, ◌+◌, ◌^◌, ◌<◌, ◌≡◌, refl, arith, List, [], ◌∷◌, Bool, true, false, Text, codes, text_eq,
}
use mocktrue.EventBus.{
  EventBus, Cancel, new_bus, put, subscribe, cancel, call_handler, call_handlers,
}
use mocktrue.EventBus.{forward, publish}
use mocktrue.EventBus.Order.{Reached, created, subscribed, IsOrdered, Reached-IsOrdered}
use mocktrue.EventBus.Delivery.{without, publish-cancel}

abbrev opened : Text
opened = codes "serial.opened"

-- A panic is logged as 0.
abbrev log : Text → List ℕ → List ℕ
log name notes = 0 ∷ notes

abbrev note : ℕ → List ℕ → List ℕ × Bool
note event notes = (event ∷ notes, true)

abbrev panic : ℕ → List ℕ → List ℕ × Bool
panic event notes = (notes, false)

abbrev empty_bus : EventBus (List ℕ) ℕ
empty_bus = new_bus 4

abbrev one_handler : EventBus (List ℕ) ℕ
one_handler = (subscribe empty_bus opened note).1

abbrev two_handlers : EventBus (List ℕ) ℕ
two_handlers = (subscribe one_handler opened panic).1

abbrev first_cancel : Cancel
first_cancel = record { topic = opened; id = 5; done = false }

one_handler-Reached : Reached one_handler
one_handler-Reached = subscribed empty_bus opened note (created 4) (omega arith)

room_for_six : one_handler.last_id + 1 < 2 ^ 63
unfolding subscribe
room_for_six = omega arith

two_handlers-Reached : Reached two_handlers
two_handlers-Reached = subscribed one_handler opened panic one_handler-Reached room_for_six

both_called : publish log two_handlers opened 7 [] ≡ 0 ∷ 7 ∷ []
unfolding publish subscribe text_eq call_handlers put call_handler
both_called = refl

Reached-IsOrdered_example : IsOrdered two_handlers
Reached-IsOrdered_example = Reached-IsOrdered two_handlers two_handlers-Reached

publish-cancel_example :
    (publish log (cancel first_cancel two_handlers).1 opened 7 []
      ≡ forward two_handlers.bridge opened 7
          (call_handlers log opened 7 (without 5 (two_handlers.subs opened)) []))
    × ((name : Text)
        → text_eq opened name ≡ false
        → publish log (cancel first_cancel two_handlers).1 name 7 []
          ≡ publish log two_handlers name 7 [])
publish-cancel_example = publish-cancel log two_handlers first_cancel 7 [] two_handlers-Reached refl
