-- ===== src/EventBus/Delivery.antt =====
-- Which handlers an event reaches after a subscription and after a cancellation.
use mocktrue.Base.{
  ℕ, ◌+◌, ◌^◌, ◌<◌, ◌≤◌, ◌≡◌, refl, ap, sym, ◌∙◌, arith, List, [], ◌∷◌, ◌++◌, Bool, false,
}
use mocktrue.Base.{
  ◌==◌, if◌then◌else◌, Text, text_eq, text_eq_refl, text_eq→eq, Bool-cases, inl, inr, ==_ne,
}
use mocktrue.Base.Int64.{add64}
use mocktrue.EventBus.{Handler, EventBus, Cancel, put, subscribe, remove_first, cancel}
use mocktrue.EventBus.{call_handler, call_handlers, forward, publish}
use mocktrue.EventBus.Order.{Rising, Rising-bounds, Reached, Reached-IsOrdered}

module _ {W D : Type 0} where
  -- The handlers but those with the id.
  abbrev pub without : ℕ → List (Handler W D) → List (Handler W D)
  without id [] = []
  without id (h ∷ hs) = if h.id == id then without id hs else h ∷ without id hs

  without_below :
      (id : ℕ) (hs : List (Handler W D)) (low high : ℕ)
      → Rising low hs high
      → id ≤ low
      → without id hs ≡ hs
  without_below id [] low high r h = refl
  without_below id (x ∷ xs) low high r h =
      rw (==_ne x.id id (λ e. omega (arith, r.0)))
        (ap (λ t. x ∷ t) (without_below id xs x.id high r.1 (omega (arith, r.0))))

  remove_first-without :
      (id : ℕ) (hs : List (Handler W D)) (low high : ℕ)
      → Rising low hs high
      → remove_first id hs ≡ without id hs
  unfolding remove_first
  remove_first-without id [] low high r = refl
  remove_first-without id (h ∷ hs) low high r = elim (Bool-cases (h.id == id)) [
    | inl e ↦ rw e (sym (without_below id hs h.id high r.1 (ground arith)))
    | inr n ↦ rw n (ap (λ t. h ∷ t) (remove_first-without id hs h.id high r.1))
  ]

  call_handlers-append :
      (log : Text → W → W) (name : Text) (event : D) (hs : List (Handler W D)) (h : Handler W D)
      → (w : W)
      → call_handlers log name event (hs ++ (h ∷ [])) w
        ≡ call_handler log name event h (call_handlers log name event hs w)
  unfolding call_handlers
  call_handlers-append log name event [] h w = refl
  call_handlers-append log name event (x ∷ xs) h w =
      call_handlers-append log name event xs h (call_handler log name event x w)

  -- An event reaches a new handler after all earlier ones of its topic, and then the frontend.
  pub publish-subscribe :
      (log : Text → W → W) (b : EventBus W D) (name : Text) (fn : D → W → W × Bool) (event : D)
      (w : W)
      → publish log (subscribe b name fn).1 name event w
        ≡ forward b.bridge name event (
            call_handler log name event
              (record { id = add64 b.last_id 1; fn = fn })
              (call_handlers log name event (b.subs name) w))
  unfolding publish subscribe put
  publish-subscribe log b name fn event w =
      rw (text_eq_refl name)
        (ap (forward b.bridge name event) (call_handlers-append log name event (b.subs name) _ w))

  -- After the cancel function has run for the first time, on a bus that the operations make, an event
  -- of its topic reaches all other handlers in their order, and the frontend; events of other topics
  -- go on as before.
  pub publish-cancel :
      (log : Text → W → W) (b : EventBus W D) (c : Cancel) (event : D) (w : W)
      → Reached b
      → c.done ≡ false
      → (publish log (cancel c b).1 c.topic event w
          ≡ forward b.bridge c.topic event
              (call_handlers log c.topic event (without c.id (b.subs c.topic)) w))
        × ((name : Text)
            → text_eq c.topic name ≡ false
            → publish log (cancel c b).1 name event w ≡ publish log b name event w)
  unfolding publish cancel put
  publish-cancel log b c event w r d =
      rw (d, text_eq_refl c.topic)
        (
          ap (λ hs. forward b.bridge c.topic event (call_handlers log c.topic event hs w))
              (remove_first-without c.id (b.subs c.topic) 0 b.last_id
                (Reached-IsOrdered b r c.topic)),
          λ name n. rw n refl,
        )

  remove_first-snoc :
      (id : ℕ) (hs : List (Handler W D)) (fn : D → W → W × Bool) (low high : ℕ)
      → Rising low hs high
      → high < id
      → remove_first id (hs ++ (record { id = id; fn = fn } ∷ [])) ≡ hs
  unfolding remove_first
  remove_first-snoc id [] fn low high r h = ground arith
  remove_first-snoc id (x ∷ xs) fn low high r h =
      rw (==_ne x.id id (λ e. omega (arith, Rising-bounds xs x.id high r.1)))
        (ap (λ t. x ∷ t) (remove_first-snoc id xs fn x.id high r.1 h))

  -- On a bus that the operations make, while the ids stay below 2^63, a subscription that is cancelled
  -- at once leaves the handlers of every topic as they were, and the cancel function does nothing when it is
  -- called again, whatever the bus is then.
  pub cancel-subscribe :
      (b : EventBus W D) (name : Text) (fn : D → W → W × Bool)
      → Reached b
      → b.last_id + 1 < 2 ^ 63
      → let (c, b') = subscribe b name fn in
        let (c', b'') = cancel c b' in
        ((topic : Text) → b''.subs topic ≡ b.subs topic)
        × ((later : EventBus W D) → cancel c' later ≡ (c', later))
  unfolding subscribe cancel put
  cancel-subscribe b name fn r room =
      (λ topic. rw (text_eq_refl name) (as_before topic), λ later. refl)
    where
      removed :
          remove_first
            (add64 b.last_id 1)
            (b.subs name ++ (record { id = add64 b.last_id 1; fn = fn } ∷ []))
          ≡ b.subs name
      removed =
          remove_first-snoc (add64 b.last_id 1) (b.subs name) fn 0 b.last_id
            (Reached-IsOrdered b r name) (omega arith)

      as_before :
          (topic : Text)
          → (if text_eq name topic
              then remove_first
                  (add64 b.last_id 1)
                  (b.subs name ++ (record { id = add64 b.last_id 1; fn = fn } ∷ []))
              else (if text_eq name topic
                  then b.subs name ++ (record { id = add64 b.last_id 1; fn = fn } ∷ [])
                  else b.subs topic))
            ≡ b.subs topic
      as_before topic = elim (Bool-cases (text_eq name topic)) [
        | inl e ↦ rw e (removed ∙ ap b.subs (text_eq→eq name topic e))
        | inr n ↦ rw n refl
      ]
