-- ===== src/Fecbus/Extract/Laws.antt =====
-- What `ExtractFrame` finds, what it leaves, and the frames that it cannot see whole.
use mocktrue.Base.{ℕ, suc, ◌+◌, ◌≡◌, ◌≢◌, refl, ap, sym, ◌∙◌, arith, List, [], ◌∷◌, ◌++◌}
use mocktrue.Base.{none, some, inl, inr, ◌⊎◌, ltb, if◌then◌else◌}
use mocktrue.Base.{
  length, take, drop, All, length-append, take-append_at, drop-append_at, append_assoc,
}
use native.Mathlib.Decide.{ℕ_discrete}
use mocktrue.Fecbus.Frame.{frame_boundary}
use mocktrue.Fecbus.Extract.{Extraction, incomplete, short, found}
use mocktrue.Fecbus.Extract.{find_boundary, extract_from, extract_frame}

-- No boundary among the bytes.
abbrev pub Clear : List ℕ → Type 0
Clear = All (λ b. b ≢ frame_boundary)

find_boundary-Clear : (bs : List ℕ) → Clear bs → find_boundary bs ≡ none
unfolding find_boundary
find_boundary-Clear [] h = refl
find_boundary-Clear (b ∷ bs) h = ground (arith, find_boundary-Clear bs h.1)

find_boundary-append :
    (xs ys : List ℕ) → Clear xs → find_boundary (xs ++ (frame_boundary ∷ ys)) ≡ some (length xs)
unfolding find_boundary
find_boundary-append [] ys h = refl
find_boundary-append (x ∷ xs) ys h = ground (arith, find_boundary-append xs ys h.1)

-- The first boundary of some bytes, apart from what stands around it.
record Split (bs : List ℕ) : Type 0 where
  before : List ℕ
  after : List ℕ
  clear : Clear before
  whole : bs ≡ before ++ (frame_boundary ∷ after)

later-Split : (b : ℕ) (bs : List ℕ) → b ≢ frame_boundary → Split bs → Split (b ∷ bs)
later-Split b bs ne s = record {
  before = b ∷ s.before;
  after = s.after;
  clear = (ne, s.clear);
  whole = ap (λ t. b ∷ t) s.whole;
}

later :
    (b : ℕ) (bs : List ℕ)
    → b ≢ frame_boundary
    → Clear bs ⊎ Split bs
    → Clear (b ∷ bs) ⊎ Split (b ∷ bs)
later b bs ne (inl c) = inl (ne, c)
later b bs ne (inr s) = inr (later-Split b bs ne s)

split : (bs : List ℕ) → Clear bs ⊎ Split bs
split [] = inl tt
split (b ∷ bs) =
    let rest = split bs in
    elim (ℕ_discrete b frame_boundary) [
      | yes at ↦ inr (record { before = []; after = bs; clear = tt; whole = ap (λ t. t ∷ bs) at })
      | no ne ↦ later b bs ne rest
    ]

-- The frame between two boundaries, and what the reader makes of it.
abbrev pub framed : List ℕ → List ℕ
framed mid = frame_boundary ∷ (mid ++ (frame_boundary ∷ []))

abbrev pub verdict : List ℕ → List ℕ → Extraction
verdict mid rest = if ltb (length mid) 9 then short rest else found (framed mid) rest

pub skip :
    (pre buf : List ℕ)
    → Clear pre
    → extract_frame (pre ++ (frame_boundary ∷ buf)) ≡ extract_from (frame_boundary ∷ buf)
unfolding extract_frame
skip pre buf h = ground (
  arith,
  find_boundary-append pre buf h,
  drop-append_at pre (frame_boundary ∷ buf) (length pre) refl,
)

extract_from-open :
    (mid : List ℕ)
    → Clear mid
    → extract_from (frame_boundary ∷ mid) ≡ incomplete (frame_boundary ∷ mid)
unfolding extract_from
extract_from-open mid h = ground (arith, find_boundary-Clear mid h)

module _ (mid rest : List ℕ) where
  abbrev pub both : List ℕ
  both = frame_boundary ∷ (mid ++ (frame_boundary ∷ rest))

  pub framed-append : framed mid ++ rest ≡ both
  framed-append = ap (λ t. frame_boundary ∷ t) (append_assoc mid (frame_boundary ∷ []) rest)

  length-framed : suc (length mid) + 1 ≡ length (framed mid)
  length-framed = omega (arith, length-append mid (frame_boundary ∷ []))

  take-framed : take (suc (length mid) + 1) both ≡ framed mid
  take-framed =
      ap (take (suc (length mid) + 1)) (sym framed-append)
      ∙ take-append_at (framed mid) rest (suc (length mid) + 1) length-framed

  drop_framed : drop (suc (length mid) + 1) both ≡ rest
  drop_framed =
      ap (drop (suc (length mid) + 1)) (sym framed-append)
      ∙ drop-append_at (framed mid) rest (suc (length mid) + 1) length-framed

pub extract_from-closed :
    (mid rest : List ℕ)
    → Clear mid
    → extract_from (frame_boundary ∷ (mid ++ (frame_boundary ∷ rest))) ≡ verdict mid rest
unfolding extract_from
extract_from-closed mid rest h = ground (
  arith,
  find_boundary-append mid rest h,
  take-framed mid rest,
  drop_framed mid rest,
  length-framed mid rest,
  length-append mid (frame_boundary ∷ rest),
)

-- What `ExtractFrame` does with every buffer: without a boundary it drops all; up to the first
-- boundary it always drops; with no second boundary it keeps the rest; else it takes the bytes from
-- the first to the second boundary, refuses them if they are fewer than 11, and goes on behind.
pub extract_frame_cases :
    (buf : List ℕ)
    → (Clear buf × (extract_frame buf ≡ incomplete []))
      ⊎ ((pre mid : List ℕ) × Clear pre
          × Clear mid
          × (buf ≡ pre ++ (frame_boundary ∷ mid))
          × (extract_frame buf ≡ incomplete (frame_boundary ∷ mid)))
      ⊎ ((pre mid rest : List ℕ) × Clear pre
          × Clear mid
          × (buf ≡ pre ++ (frame_boundary ∷ (mid ++ (frame_boundary ∷ rest))))
          × (extract_frame buf ≡ verdict mid rest))
extract_frame_cases buf = elim (split buf) [
  | inl c ↦ inl (c, unfold extract_frame in ground (arith, find_boundary-Clear buf c))
  | inr s ↦ elim (split s.after) [
    | inl c ↦ inr (
        inl (
          s.before,
          s.after,
          s.clear,
          c,
          s.whole,
          ap extract_frame s.whole ∙ skip s.before s.after s.clear ∙ extract_from-open s.after c,
        ))
    | inr t ↦
        let w : buf ≡ s.before ++ (frame_boundary ∷ (t.before ++ (frame_boundary ∷ t.after))) =
          s.whole ∙ ap (λ u. s.before ++ (frame_boundary ∷ u)) t.whole in
        inr (
          inr (
            s.before,
            t.before,
            t.after,
            s.clear,
            t.clear,
            w,
            ap extract_frame w
                ∙ skip s.before (t.before ++ (frame_boundary ∷ t.after)) s.clear
                ∙ extract_from-closed t.before t.after t.clear,
          ))
  ]
]
