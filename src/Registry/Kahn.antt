-- ===== src/Registry/Kahn.antt =====
-- The invariant of the queue of `orderLocked` of internal/core/module/registry.go.
use mocktrue.Base.{
  ℕ, zero, suc, ◌+◌, ◌-◌, ◌≤◌, ◌<◌, ◌≡◌, ◌≢◌, refl, ap, sym, ◌∙◌, List, [], ◌∷◌, ◌++◌, append_assoc,
  append-nil, true, false,
}
use mocktrue.Base.{
  Bool-cases, ◌==◌, inl, inr, Text, text_eq, text_eq_refl, length, length-append, All, arith,
  if◌then◌else◌, ok,
}
use mocktrue.Registry.{Registry}
use mocktrue.Registry.Order.{put, release, drain}
use mocktrue.Registry.Names.{
  member, count, pending, Distinct, names-cases, member-append, Distinct-append, pending-append,
  pending_none, member_other, Distinct-middle, Distinct-le,
}
use mocktrue.Registry.Edges.{names, dependencies_of, put_self, unlisted}

-- Behind each module of `order` stand only its dependents.
abbrev pub IsSorted : Registry → List Text → List Text → Type 0
IsSorted ms before [] = Unit {0}
IsSorted ms before (x ∷ xs) =
    All (λ d. member d before ≡ true) (dependencies_of x ms) × IsSorted ms (before ++ (x ∷ [])) xs

module _ (ms : Registry) where
  -- `seen` are the modules in the order and in the queue, `left` those whose in-degree is still to be
  -- taken down for the one that was put into the order `finished` last.
  pub record Counted (finished : List Text) (left : List Text) (indegree : Text → ℕ)
      (seen : List Text) : Type 0 where
    pub counts : (x : Text) → indegree x ≡ pending finished (dependencies_of x ms) + count x left
    pub seen_zero : (x : Text) → member x seen ≡ true → indegree x ≡ 0
    pub zero_seen : (x : Text) → member x (names ms) ≡ true → indegree x ≡ 0 → member x seen ≡ true
    pub distinct : Distinct seen
    pub known : (x : Text) → member x seen ≡ true → member x (names ms) ≡ true

  module _ (finished : List Text) (y : Text) (left : List Text) (indegree : Text → ℕ)
      (seen : List Text) (c : Counted finished (y ∷ left) indegree seen)
      (real : member y (names ms) ≡ true) where
    lower : Text → ℕ
    lower = put indegree y (indegree y - 1)

    positive : suc (pending finished (dependencies_of y ms) + count y left) ≡ indegree y
    positive = ground (arith, c.counts y, text_eq_refl y)

    unseen : member y seen ≡ false
    unseen = elim (Bool-cases (member y seen)) [
      | inl e ↦ absurd (omega (arith, c.seen_zero y e, positive))
      | inr e ↦ e
    ]

    lower_counts : (x : Text) → lower x ≡ pending finished (dependencies_of x ms) + count x left
    unfolding lower
    lower_counts x = elim (names-cases x y) [
      | inl e ↦ rw (e, put_self indegree y (indegree y - 1)) (omega (arith, positive))
      | inr e ↦ ground (arith, c.counts x, e)
    ]

    seen_lower : (x : Text) → member x seen ≡ true → lower x ≡ 0
    unfolding lower
    seen_lower x m = ground (arith, member_other x y seen m unseen, c.seen_zero x m)

    old_member :
        (x : Text) → member x (seen ++ (y ∷ [])) ≡ true → text_eq x y ≡ false → member x seen ≡ true
    old_member x m e = ground (arith, m, e, member-append x seen (y ∷ []))

    higher : (x : Text) → text_eq x y ≡ false → lower x ≡ 0 → indegree x ≡ 0
    unfolding lower
    higher x e z = ground (arith, e, z)

    push : lower y ≡ 0 → Counted finished left lower (seen ++ (y ∷ []))
    push z = record {
      counts = lower_counts;
      seen_zero = λ x m. elim (names-cases x y) [
        | inl e ↦ rw e z
        | inr e ↦ seen_lower x (old_member x m e)
      ];
      zero_seen = λ x n zx. elim (names-cases x y) [
        | inl e ↦ rw e (ground (arith, member-append y seen (y ∷ []), text_eq_refl y))
        | inr e ↦ ground (arith, member-append x seen (y ∷ []), c.zero_seen x n (higher x e zx))
      ];
      distinct = Distinct-append y seen c.distinct unseen;
      known = λ x m. elim (names-cases x y) [
        | inl e ↦ rw e real
        | inr e ↦ c.known x (old_member x m e)
      ];
    }

    keep : lower y ≢ 0 → Counted finished left lower seen
    keep z = record {
      counts = lower_counts;
      seen_zero = seen_lower;
      zero_seen = λ x n zx. elim (names-cases x y) [
        | inl e ↦ absurd (z (ap lower (sym e) ∙ zx))
        | inr e ↦ c.zero_seen x n (higher x e zx)
      ];
      distinct = c.distinct;
      known = c.known;
    }

  queue_step :
      (finished : List Text) (y : Text) (left : List Text) (indegree : Text → ℕ) (queue : List Text)
      → Counted finished (y ∷ left) indegree (finished ++ queue)
      → member y (names ms) ≡ true
      → let lowered = put indegree y (indegree y - 1) in
        Counted finished left lowered
          (finished ++ (if lowered y == 0 then queue ++ (y ∷ []) else queue))
  unfolding lower
  queue_step finished y left indegree queue c real =
      let lowered = put indegree y (indegree y - 1) in
      elim (Bool-cases (lowered y == 0)) [
        | inl z ↦
            let pushed =
              push finished y left indegree (finished ++ queue) c real (ground (arith, z)) in
            rw z (rw (append_assoc finished) at pushed)
        | inr z ↦
            rw z
              (keep finished y left indegree (finished ++ queue) c real (λ e. ground (arith, z, e)))
      ]

  -- The in-degrees of the dependents are taken down, and those that reach zero join the queue.
  pub release-Counted :
      (finished left : List Text) (indegree : Text → ℕ) (queue : List Text)
      → ((x : Text) → 1 ≤ count x left → member x (names ms) ≡ true)
      → Counted finished left indegree (finished ++ queue)
      → let (lowered, longer) = release left indegree queue in
        Counted finished [] lowered (finished ++ longer)
  unfolding release
  release-Counted finished [] indegree queue real c = c
  release-Counted finished (y ∷ left) indegree queue real c =
      let lowered = put indegree y (indegree y - 1) in
      let longer = if lowered y == 0 then queue ++ (y ∷ []) else queue in
      let real_y = real y (ground (arith, text_eq_refl y)) in
      release-Counted finished left lowered longer (λ x h. real x (omega arith))
        (queue_step finished y left indegree queue c real_y)

  -- A module that leaves the queue joins the order, and its dependents are still to be counted.
  dequeue :
      (dependents : Text → List Text) (order : List Text) (name : Text) (queue : List Text)
      (indegree : Text → ℕ)
      → ((d x : Text) → count x (dependents d) ≡ count d (dependencies_of x ms))
      → Counted order [] indegree (order ++ (name ∷ queue))
      → Counted (order ++ (name ∷ [])) (dependents name) indegree ((order ++ (name ∷ [])) ++ queue)
  dequeue dependents order name queue indegree edges c =
      let fresh = Distinct-middle order name queue c.distinct in
      rw (append_assoc order) record {
        counts = λ x. omega (
          arith,
          c.counts x,
          edges name x,
          pending-append name order (dependencies_of x ms) fresh,
        );
        seen_zero = c.seen_zero;
        zero_seen = c.zero_seen;
        distinct = c.distinct;
        known = c.known;
      }

  IsSorted-append :
      (before order : List Text) (name : Text)
      → IsSorted ms before order
      → All (λ d. member d (before ++ order) ≡ true) (dependencies_of name ms)
      → IsSorted ms before (order ++ (name ∷ []))
  IsSorted-append before [] name s h = (rw append-nil at h, tt)
  IsSorted-append before (x ∷ order) name (a, s) h =
      (a, IsSorted-append (before ++ (x ∷ [])) order name s (rw (append_assoc before) h))

  -- What the loop leaves: an order of registered modules, each behind its dependencies, that has every
  -- module whose dependencies it has.
  pub record Drained (order : List Text) : Type 0 where
    pub sorted : IsSorted ms [] order
    pub distinct : Distinct order
    pub known : (x : Text) → member x order ≡ true → member x (names ms) ≡ true
    pub closed :
        (x : Text)
        → member x (names ms) ≡ true
        → pending order (dependencies_of x ms) ≡ 0
        → member x order ≡ true

  module _ (dependents : Text → List Text)
      (edges : (d x : Text) → count x (dependents d) ≡ count d (dependencies_of x ms)) where
    dependent_known : (d x : Text) → 1 ≤ count x (dependents d) → member x (names ms) ≡ true
    dependent_known d x h = elim (Bool-cases (member x (names ms))) [
      | inl e ↦ e
      | inr e ↦ absurd (omega (arith, edges d x, h, ap (count d) (unlisted x ms e)))
    ]

    ready_deps :
        (order queue : List Text) (name : Text) (indegree : Text → ℕ)
        → Counted order [] indegree (order ++ (name ∷ queue))
        → All (λ d. member d order ≡ true) (dependencies_of name ms)
    ready_deps order queue name indegree c = pending_none order (dependencies_of name ms) (
        omega (
          arith,
          c.counts name,
          c.seen_zero name
              (ground (arith, member-append name order (name ∷ queue), text_eq_refl name)),
        ))

    pub drain-Drained :
        (fuel : ℕ) (indegree : Text → ℕ) (queue order : List Text)
        → Counted order [] indegree (order ++ queue)
        → IsSorted ms [] order
        → length (names ms) < length order + fuel
        → (result : List Text) × (drain fuel dependents indegree queue order ≡ ok result)
          × Drained result
    unfolding drain
    drain-Drained zero indegree queue order c s h = absurd (
        omega (
          arith,
          h,
          Distinct-le (order ++ queue) (names ms) c.distinct c.known,
          length-append order queue,
        ))
    drain-Drained (suc fuel) indegree [] order c s h = (
      order,
      refl,
      record {
        sorted = s;
        distinct = rw append-nil at c.distinct;
        known = rw append-nil at c.known;
        closed = λ x n p. rw append-nil at c.zero_seen x n (omega (arith, c.counts x, p));
      },
    )
    drain-Drained (suc fuel) indegree (name ∷ queue) order c s h =
        let (lowered, longer) = release (dependents name) indegree queue in
        let released =
          release-Counted (order ++ (name ∷ [])) (dependents name) indegree queue
            (dependent_known name) (dequeue dependents order name queue indegree edges c) in
        drain-Drained fuel lowered longer (order ++ (name ∷ [])) released
          (IsSorted-append [] order name s (ready_deps order queue name indegree c))
          (omega (arith, h, length-append order (name ∷ [])))
