-- ===== src/EventBus.antt =====
-- core/eventbus/bus.go. Each part of a method that holds the mutex is one step. `W` is what handlers,
-- logger and bridge change, and `D` the data of an event; a handler's function gives the new `W` and
-- whether it returned, `false` standing for a panic. A handler that calls the bus itself makes further
-- steps, which the copied list of `publish` does not see.
pub mod Order
pub mod Delivery
mod Tests
use mocktrue.Base.{ℕ, List, [], ◌∷◌, ◌++◌, Bool, true, false, Option, none, some}
use mocktrue.Base.{◌==◌, if◌then◌else◌, Text, text_eq}
use mocktrue.Base.Int64.{add64}

pub record Handler (W D : Type 0) : Type 0 where
  pub id : ℕ
  pub fn : D → W → W × Bool

-- `last_id` is `nextHandlerID` as the bus meets it: the counter is shared by all buses, so that it may
-- grow between two operations of this one. A topic without an entry has no handlers.
pub record EventBus (W D : Type 0) : Type 0 where
  pub subs : Text → List (Handler W D)
  pub bridge : Option (Text → D → W → W)
  pub last_id : ℕ

-- What a cancel function has captured: the topic, the id, and whether its `sync.Once` is done.
pub record Cancel : Type 0 where
  pub topic : Text
  pub id : ℕ
  pub done : Bool

module _ {W D : Type 0} where
  -- `b.subs[name] = hs`
  pub put : (Text → List (Handler W D)) → Text → List (Handler W D) → Text → List (Handler W D)
  put subs name hs k = if text_eq name k then hs else subs k

  abbrev pub new_bus : ℕ → EventBus W D
  new_bus last_id = record { subs = λ _. []; bridge = none; last_id = last_id }

  unfoldable pub bridge_to_frontend : EventBus W D → Option (Text → D → W → W) → EventBus W D
  bridge_to_frontend b br = record b { bridge = br }

  unfoldable pub subscribe : EventBus W D → Text → (D → W → W × Bool) → Cancel × EventBus W D
  subscribe b name fn =
      let id = add64 b.last_id 1 in
      (
        record { topic = name; id = id; done = false },
        record b {
          subs = put b.subs name (b.subs name ++ (record { id = id; fn = fn } ∷ []));
          last_id = id;
        },
      )

  -- The loop that looks for the handler and cuts it out.
  pub remove_first : ℕ → List (Handler W D) → List (Handler W D)
  remove_first id [] = []
  remove_first id (h ∷ hs) = let rest = remove_first id hs in if h.id == id then hs else h ∷ rest

  -- The cancel function, once.
  unfoldable pub cancel : Cancel → EventBus W D → Cancel × EventBus W D
  cancel c b = if c.done then (c, b) else (
    record c { done = true },
    record b { subs = put b.subs c.topic (remove_first c.id (b.subs c.topic)) },
  )

  -- A call of one handler, where `log` is the logger's entry for a panic.
  pub call_handler : (Text → W → W) → Text → D → Handler W D → W → W
  call_handler log name event h w =
      let (w', returned) = h.fn event w in if returned then w' else log name w'

  pub call_handlers : (Text → W → W) → Text → D → List (Handler W D) → W → W
  call_handlers log name event [] w = w
  call_handlers log name event (h ∷ hs) w =
      call_handlers log name event hs (call_handler log name event h w)

  -- The forwarding to the frontend.
  abbrev pub forward : Option (Text → D → W → W) → Text → D → W → W
  forward none name event w = w
  forward (some emit) name event w = emit name event w

  unfoldable pub publish : (Text → W → W) → EventBus W D → Text → D → W → W
  publish log b name event w =
      forward b.bridge name event (call_handlers log name event (b.subs name) w)
