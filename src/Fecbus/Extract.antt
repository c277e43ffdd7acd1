-- ===== src/Fecbus/Extract.antt =====
-- `ExtractFrame` of fecbus/protocol.go: the first frame of a receive buffer.
pub mod Laws
pub mod Frames
use mocktrue.Base.{ℕ, suc, ◌+◌, List, [], ◌∷◌, Option, none, some, ltb, ◌==◌, if◌then◌else◌}
use mocktrue.Base.{length, take, drop}
use mocktrue.Fecbus.Frame.{frame_boundary, min_frame_bytes}

-- The four ways to return: no frame yet, with what is to be kept; a frame that is too short, with
-- the rest; a frame, with the rest.
pub data Extraction : Type 0 where
  incomplete : List ℕ → Extraction
  short : List ℕ → Extraction
  found : List ℕ → List ℕ → Extraction

-- The loops that look for a boundary: its index.
unfoldable pub find_boundary : List ℕ → Option ℕ
find_boundary [] = none
find_boundary (b ∷ bs) =
    let later = find_boundary bs in
    if b == frame_boundary then some 0 else elim later [ none ↦ none | some i ↦ some (suc i) ]

-- From a buffer that begins with a boundary; the second loop starts at index 1.
unfoldable pub extract_from : List ℕ → Extraction
extract_from buf =
    if ltb (length buf) 2 then incomplete buf else elim (find_boundary (drop 1 buf)) [
      | none ↦ incomplete buf
      | some i ↦
          let end = suc i in
          if ltb (length (take (end + 1) buf)) min_frame_bytes
          then short (drop (end + 1) buf)
          else found (take (end + 1) buf) (drop (end + 1) buf)
    ]

unfoldable pub extract_frame : List ℕ → Extraction
extract_frame buf = elim (find_boundary buf) [
  | none ↦ incomplete []
  | some start ↦ extract_from (drop start buf)
]
