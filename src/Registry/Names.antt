-- ===== src/Registry/Names.antt =====
-- Lists of module IDs: members, counts and lists without repetition.
use mocktrue.Base.{
  ℕ, suc, ◌+◌, ◌≤◌, ◌≡◌, ◌≢◌, ◌⊎◌, inl, inr, refl, sym, List, [], ◌∷◌, ◌++◌, Bool, true, false,
  ◌||◌,
}
use mocktrue.Base.{
  Bool-cases, Text, text_eq, text_eq_refl, text_eq→eq, length, All, arith, if◌then◌else◌,
}

abbrev pub member : Text → List Text → Bool
member x [] = false
member x (y ∷ ys) = text_eq x y || member x ys

abbrev pub count : Text → List Text → ℕ
count x [] = 0
count x (y ∷ ys) = (if text_eq x y then 1 else 0) + count x ys

-- How many of the names are not among those that are done.
abbrev pub pending : List Text → List Text → ℕ
pending finished [] = 0
pending finished (d ∷ ds) = (if member d finished then 0 else 1) + pending finished ds

abbrev pub Distinct : List Text → Type 0
Distinct [] = Unit {0}
Distinct (x ∷ xs) = (member x xs ≡ false) × Distinct xs

pub names-cases : (a b : Text) → (a ≡ b) ⊎ (text_eq a b ≡ false)
names-cases a b = elim (Bool-cases (text_eq a b)) [ inl e ↦ inl (text_eq→eq a b e) | inr e ↦ inr e ]

pub other_sym : (a b : Text) → text_eq a b ≡ false → text_eq b a ≡ false
other_sym a b h = elim (names-cases b a) [ inl e ↦ cc | inr e ↦ e ]

pub member_other :
    (x y : Text) (ys : List Text) → member x ys ≡ true → member y ys ≡ false → text_eq x y ≡ false
member_other x y ys h n = elim (names-cases x y) [
  | inl e ↦ absurd (let k : member y ys ≡ true = rw (sym e) h in ground (arith, k, n))
  | inr e ↦ e
]

pub member-append :
    (x : Text) (xs ys : List Text) → member x (xs ++ ys) ≡ (member x xs || member x ys)
member-append x [] ys = refl
member-append x (y ∷ xs) ys = ground (arith, member-append x xs ys)

pub pending-append :
    (name : Text) (finished ds : List Text)
    → member name finished ≡ false
    → pending finished ds ≡ pending (finished ++ (name ∷ [])) ds + count name ds
pending-append name finished [] h = refl
pending-append name finished (d ∷ ds) h = elim (names-cases name d) [
  | inl e ↦
      let ih = pending-append name finished ds h in
      rw (sym e) ground (arith, h, ih, member-append name finished (name ∷ []), text_eq_refl name)
  | inr e ↦
      let ih = pending-append name finished ds h in
      ground (arith, ih, e, other_sym name d e, member-append d finished (name ∷ []))
]

pub pending_none :
    (finished ds : List Text) → pending finished ds ≡ 0 → All (λ d. member d finished ≡ true) ds
pending_none finished [] h = tt
pending_none finished (d ∷ ds) h = elim (Bool-cases (member d finished)) [
  | inl e ↦ (e, pending_none finished ds (ground (arith, h, e)))
  | inr e ↦ absurd (ground (arith, h, e))
]

pub pending_some :
    (finished ds : List Text)
    → pending finished ds ≢ 0
    → (d : Text) × (member d ds ≡ true) × (member d finished ≡ false)
pending_some finished [] h = absurd (h refl)
pending_some finished (d ∷ ds) h = elim (Bool-cases (member d finished)) [
  | inl e ↦
      let (x, m, n) = pending_some finished ds (λ z. h (ground (arith, z, e))) in
      (x, ground (arith, m), n)
  | inr e ↦ (d, rw (text_eq_refl d) refl, e)
]

pub Distinct-append :
    (x : Text) (xs : List Text) → Distinct xs → member x xs ≡ false → Distinct (xs ++ (x ∷ []))
Distinct-append x [] h n = (refl, tt)
Distinct-append x (y ∷ xs) (a, h) n = (
  ground (arith, a, n, member-append y xs (x ∷ []), other_sym x y),
  Distinct-append x xs h (ground (arith, n)),
)

pub Distinct-middle :
    (xs : List Text) (x : Text) (ys : List Text) → Distinct (xs ++ (x ∷ ys)) → member x xs ≡ false
Distinct-middle [] x ys h = refl
Distinct-middle (z ∷ xs) x ys (a, h) =
    ground (arith, Distinct-middle xs x ys h, a, member-append z xs (x ∷ ys), other_sym z x)

remove : Text → List Text → List Text
remove x [] = []
remove x (y ∷ ys) = let rest = remove x ys in if text_eq x y then ys else y ∷ rest

length-remove :
    (x : Text) (ys : List Text) → member x ys ≡ true → length ys ≡ suc (length (remove x ys))
unfolding remove
length-remove x [] h = absurd cc
length-remove x (y ∷ ys) h = ground (arith, length-remove x ys)

member-remove :
    (x z : Text) (ys : List Text)
    → member z ys ≡ true
    → text_eq z x ≡ false
    → member z (remove x ys) ≡ true
unfolding remove
member-remove x z [] h n = h
member-remove x z (y ∷ ys) h n = elim (names-cases x y) [
  | inl e ↦ rw (sym e) (ground (arith, h, n, text_eq_refl x))
  | inr e ↦ rw e (ground (arith, h, member-remove x z ys))
]

-- A list without repetition is no longer than one that has all its members.
pub Distinct-le :
    (xs ys : List Text)
    → Distinct xs
    → ((z : Text) → member z xs ≡ true → member z ys ≡ true)
    → length xs ≤ length ys
Distinct-le [] ys h k = omega arith
Distinct-le (x ∷ xs) ys (a, h) k =
    let inside = k x (rw (text_eq_refl x) refl) in
    let shorter =
      Distinct-le xs (remove x ys) h
        (λ z m. member-remove x z ys (k z (ground (arith, m))) (member_other z x xs m a)) in
    omega (arith, length-remove x ys inside)
