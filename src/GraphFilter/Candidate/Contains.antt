-- ===== src/GraphFilter/Candidate/Contains.antt =====
-- `strings.Contains`, which the filters of graph_filter.go compare texts with.
use mocktrue.Base.{
  ℕ, ◌≡◌, ◌↔◌, refl, ap, ◌∙◌, [], ◌∷◌, ◌++◌, true, ◌==◌, ==_refl, Bool-cases, inl, inr, Text, arith,
}
use mocktrue.GraphFilter.Candidate.{starts_with, contains}

starts_with-append : (p t : Text) → starts_with (p ++ t) p ≡ true
unfolding starts_with
starts_with-append [] [] = refl
starts_with-append [] (a ∷ t) = refl
starts_with-append (a ∷ p) t = rw (==_refl a) (starts_with-append p t)

starts_with_prefix : (s p : Text) → starts_with s p ≡ true → (t : Text) × (s ≡ p ++ t)
unfolding starts_with
starts_with_prefix s [] h = (s, refl)
starts_with_prefix [] (b ∷ p) h = absurd cc
starts_with_prefix (a ∷ s) (b ∷ p) h = elim (Bool-cases (a == b)) [
  | inl e ↦
      let (t, q) = starts_with_prefix s p (rw e at h) in
      (t, ap (λ c. c ∷ s) (ground arith) ∙ ap (λ r. b ∷ r) q)
  | inr n ↦ absurd (ground (arith, h))
]

contains_here : (s p : Text) → starts_with s p ≡ true → contains s p ≡ true
unfolding contains
contains_here [] p h = h
contains_here (a ∷ s) p h = rw h refl

contains_later : (a : ℕ) (s p : Text) → contains s p ≡ true → contains (a ∷ s) p ≡ true
unfolding contains
contains_later a s p h = elim (Bool-cases (starts_with (a ∷ s) p)) [
  | inl e ↦ rw e refl
  | inr e ↦ rw e h
]

contains-append : (before p after : Text) → contains (before ++ (p ++ after)) p ≡ true
contains-append [] p after = contains_here (p ++ after) p (starts_with-append p after)
contains-append (a ∷ before) p after =
    contains_later a (before ++ (p ++ after)) p (contains-append before p after)

contains_split :
    (s p : Text)
    → contains s p ≡ true
    → (before : Text) × (after : Text) × (s ≡ before ++ (p ++ after))
unfolding contains
contains_split [] p h = let (t, q) = starts_with_prefix [] p h in ([], t, q)
contains_split (a ∷ s) p h = elim (Bool-cases (starts_with (a ∷ s) p)) [
  | inl e ↦ let (t, q) = starts_with_prefix (a ∷ s) p e in ([], t, q)
  | inr e ↦
      let (before, after, q) = contains_split s p (rw e at h) in
      (a ∷ before, after, ap (λ r. a ∷ r) q)
]

-- A text contains another exactly when it is that text with something before and behind it.
pub contains_iff :
    (s p : Text)
    → (contains s p ≡ true) ↔ ((before : Text) × (after : Text) × (s ≡ before ++ (p ++ after)))
contains_iff s p = (contains_split s p, λ (before, after, e). rw e (contains-append before p after))
