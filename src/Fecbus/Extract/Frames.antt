-- ===== src/Fecbus/Extract/Frames.antt =====
-- Encoded frames in the receive buffer.
use mocktrue.Base.{ℕ, ◌%◌, ◌≤◌, ◌≡◌, ◌≢◌, refl, ap, sym, ◌∙◌, arith, List, [], ◌∷◌, ◌++◌}
use mocktrue.Base.{inl, inr}
use mocktrue.Base.{length, take, drop, length-append, take-append_at, append_assoc, ok, ltb-false}
use mocktrue.Modbus.Words.{lo, hi}
use mocktrue.Fecbus.Checksum.{crc16}
use mocktrue.Fecbus.Frame.{Frame, frame_boundary, frame_body, encode_frame}
use mocktrue.Fecbus.Frame.RoundTrip.{wire, encode_frame-ok}
use mathlib.Core.Path.{subst}
use mocktrue.Fecbus.Extract.{found}
use mocktrue.Fecbus.Extract.{extract_frame}
use mocktrue.Fecbus.Extract.Laws.{
  Clear, framed, framed-append, skip, extract_from-closed, verdict, extract_frame_cases,
}

-- The bytes of a frame between its boundaries.
abbrev pub inner : Frame → List ℕ
inner f =
    f.kind
    ∷ f.target
    ∷ f.priority
    ∷ f.source
    ∷ f.message
    ∷ f.group
    ∷ (length f.payload % 256)
    ∷ (f.payload ++ (lo (crc16 (frame_body f)) ∷ hi (crc16 (frame_body f)) ∷ []))

wire-framed : (f : Frame) → wire f ≡ framed (inner f)
unfolding frame_body
wire-framed f =
    ap
      (λ t.
        frame_boundary
        ∷ f.kind
        ∷ f.target
        ∷ f.priority
        ∷ f.source
        ∷ f.message
        ∷ f.group
        ∷ (length f.payload % 256)
        ∷ t)
      (sym (
        append_assoc f.payload (lo (crc16 (frame_body f)) ∷ hi (crc16 (frame_body f)) ∷ [])
          (frame_boundary ∷ [])))

snoc-injective : (xs ys : List ℕ) (x : ℕ) → xs ++ (x ∷ []) ≡ ys ++ (x ∷ []) → xs ≡ ys
snoc-injective xs ys x e =
    sym (take-append_at xs (x ∷ []) (length xs) refl)
    ∙ ap (take (length xs)) e
    ∙ take-append_at ys (x ∷ []) (length xs)
        (omega (arith, ap length e, length-append xs (x ∷ []), length-append ys (x ∷ [])))

framed-injective : (xs ys : List ℕ) → framed xs ≡ framed ys → xs ≡ ys
framed-injective xs ys e = snoc-injective xs ys frame_boundary (ap (drop 1) e)

long_inner : (f : Frame) → 1 ≤ length f.payload → 9 ≤ length (inner f)
long_inner f h =
    omega
      (arith, length-append f.payload (lo (crc16 (frame_body f)) ∷ hi (crc16 (frame_body f)) ∷ []))

verdict-found : (mid rest raw more : List ℕ) → verdict mid rest ≡ found raw more → framed mid ≡ raw
verdict-found mid rest raw more e = ground arith

-- What `EncodeFrame` made is found whole behind bytes with no boundary, and what follows it is kept,
-- if no byte between its own boundaries is a boundary.
pub extract_frame-encode_frame :
    (pre more raw : List ℕ) (f : Frame)
    → Clear pre
    → Clear (inner f)
    → encode_frame f ≡ ok raw
    → extract_frame (pre ++ (raw ++ more)) ≡ found raw more
extract_frame-encode_frame pre more raw f hp hm e =
    ap (λ t. extract_frame (pre ++ (t ++ more))) whole
    ∙ ap (λ t. extract_frame (pre ++ t)) (framed-append (inner f) more)
    ∙ skip pre (inner f ++ (frame_boundary ∷ more)) hp
    ∙ extract_from-closed (inner f) more hm
    ∙ verdict_long
    ∙ ap (λ t. found t more) (sym whole)
  where
    whole : raw ≡ framed (inner f)
    whole = (encode_frame-ok f raw e).0 ∙ wire-framed f

    verdict_long : verdict (inner f) more ≡ found (framed (inner f)) more
    verdict_long = rw (ltb-false (length (inner f)) 9 (long_inner f (encode_frame-ok f raw e).1))

-- A frame that `EncodeFrame` made with a boundary byte between its two boundaries is never found
-- whole at the start of the buffer, whatever follows it.
pub extract_frame-inner_boundary :
    (raw more rest : List ℕ) (f : Frame)
    → ¬ Clear (inner f)
    → encode_frame f ≡ ok raw
    → extract_frame (raw ++ more) ≢ found raw rest
extract_frame-inner_boundary raw more rest f dirty e r = elim (extract_frame_cases (raw ++ more)) [
  | inl (c, x) ↦ cc (sym x ∙ r)
  | inr (inl (pre, mid, hp, hm, w, x)) ↦ cc (sym x ∙ r)
  | inr (inr (pre, mid, tail, hp, hm, w, x)) ↦
      let same : mid ≡ inner f = framed-injective mid (inner f) (
        verdict-found mid tail raw rest (sym x ∙ r)
        ∙ (encode_frame-ok f raw e).0
        ∙ wire-framed f) in
      dirty (subst Clear same hm)
]
