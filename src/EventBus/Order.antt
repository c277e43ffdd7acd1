-- ===== src/EventBus/Order.antt =====
-- The ids of a topic's handlers rise in the order of subscription.
use mocktrue.Base.{ℕ, ◌+◌, ◌^◌, ◌<◌, ◌≤◌, arith, List, [], ◌∷◌, ◌++◌, Bool, Option}
use mocktrue.Base.{◌==◌, Text, text_eq, Bool-cases, inl, inr}
use mocktrue.Base.Int64.{add64}
use mocktrue.EventBus.{
  Handler, EventBus, Cancel, put, new_bus, bridge_to_frontend, subscribe, remove_first, cancel,
}

module _ {W D : Type 0} where
  -- Ids above `low`, rising, up to `high`.
  abbrev pub Rising : ℕ → List (Handler W D) → ℕ → Type 0
  Rising low [] high = low ≤ high
  Rising low (h ∷ hs) high = (low < h.id) × Rising h.id hs high

  pub Rising-bounds : (hs : List (Handler W D)) (low high : ℕ) → Rising low hs high → low ≤ high
  Rising-bounds [] low high r = r
  Rising-bounds (h ∷ hs) low high r = omega (arith, r.0, Rising-bounds hs h.id high r.1)

  Rising-snoc :
      (hs : List (Handler W D)) (h : Handler W D) (low high : ℕ)
      → Rising low hs high
      → high < h.id
      → Rising low (hs ++ (h ∷ [])) h.id
  Rising-snoc [] h low high r above = (omega arith, omega arith)
  Rising-snoc (x ∷ xs) h low high r above = (r.0, Rising-snoc xs h x.id high r.1 above)

  Rising-weaken :
      (hs : List (Handler W D)) (low lower high higher : ℕ)
      → Rising low hs high
      → lower ≤ low
      → high ≤ higher
      → Rising lower hs higher
  Rising-weaken [] low lower high higher r p q = omega arith
  Rising-weaken (h ∷ hs) low lower high higher r p q =
      (omega (arith, r.0), Rising-weaken hs h.id h.id high higher r.1 (omega arith) q)

  Rising-remove_first :
      (id : ℕ) (hs : List (Handler W D)) (low high : ℕ)
      → Rising low hs high
      → Rising low (remove_first id hs) high
  unfolding remove_first
  Rising-remove_first id [] low high r = r
  Rising-remove_first id (h ∷ hs) low high r = elim (Bool-cases (h.id == id)) [
    | inl e ↦ rw e (Rising-weaken hs h.id low high high r.1 (omega (arith, r.0)) (omega arith))
    | inr n ↦ rw n (r.0, Rising-remove_first id hs h.id high r.1)
  ]

  -- The buses that the operations make from a new one, while the ids stay below 2^63; other buses may
  -- take ids at any time.
  pub data Reached : EventBus W D → Type 0 where
    created : (last_id : ℕ) → Reached (new_bus last_id)
    bridged :
        (b : EventBus W D) (br : Option (Text → D → W → W))
        → Reached b
        → Reached (bridge_to_frontend b br)
    subscribed :
        (b : EventBus W D) (name : Text) (fn : D → W → W × Bool)
        → Reached b
        → b.last_id + 1 < 2 ^ 63
        → Reached (subscribe b name fn).1
    elsewhere :
        (b : EventBus W D) (last_id : ℕ)
        → Reached b
        → b.last_id ≤ last_id
        → Reached (record b { last_id = last_id })
    cancelled : (b : EventBus W D) (c : Cancel) → Reached b → Reached (cancel c b).1

  abbrev pub IsOrdered : EventBus W D → Type 0
  IsOrdered b = (name : Text) → Rising 0 (b.subs name) b.last_id

  -- On every bus that the operations make, the ids of each topic's handlers rise in the order of
  -- subscription and none is above the last id given out.
  pub Reached-IsOrdered : (b : EventBus W D) → Reached b → IsOrdered b
  unfolding subscribe cancel put bridge_to_frontend
  Reached-IsOrdered _ (created last_id) name = omega arith
  Reached-IsOrdered _ (bridged b br r) name = Reached-IsOrdered b r name
  Reached-IsOrdered _ (subscribed b topic fn r room) name = elim (Bool-cases (text_eq topic name)) [
    | inl e ↦ rw e (
        Rising-snoc (b.subs topic) (record { id = add64 b.last_id 1; fn = fn }) 0 b.last_id
          (Reached-IsOrdered b r topic) (omega arith))
    | inr n ↦ rw n (
        Rising-weaken (b.subs name) 0 0 b.last_id (add64 b.last_id 1) (Reached-IsOrdered b r name)
          (omega arith) (omega arith))
  ]
  Reached-IsOrdered _ (elsewhere b last_id r grown) name =
      Rising-weaken (b.subs name) 0 0 b.last_id last_id (Reached-IsOrdered b r name) (omega arith)
        grown
  Reached-IsOrdered _ (cancelled b c r) name = elim (Bool-cases c.done) [
    | inl d ↦ rw d (Reached-IsOrdered b r name)
    | inr d ↦ rw d (elim (Bool-cases (text_eq c.topic name)) [
      | inl e ↦
          rw e
            (Rising-remove_first c.id (b.subs c.topic) 0 b.last_id (Reached-IsOrdered b r c.topic))
      | inr n ↦ rw n (Reached-IsOrdered b r name)
    ])
  ]
