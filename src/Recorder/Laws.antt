-- ===== src/Recorder/Laws.antt =====
-- Recorded frames are played back as they were.
use mathlib.Core.Path.{subst}
use mocktrue.Base.{
  ℕ, suc, ◌+◌, ◌/◌, ◌%◌, ◌^◌, ◌<◌, ◌≡◌, refl, ap, sym, ◌∙◌, arith, List, [], ◌∷◌, ◌++◌, true, false,
}
use mocktrue.Base.{
  Option, none, some, ltb-false, lt→ltb, length, take_all, map, All, append_assoc, append-nil, ok,
  err, Bool-cases, inl, inr,
}
use mocktrue.Base.Int64.{add64}
use mocktrue.Recorder.{not_open, Frame, put_u32, u32, frame_data, frame_of_packet, Recorder}
use mocktrue.Recorder.{
  write_frame, close, Packet, packet, ended, read_frame, read_all, new_recorder,
}

u32-put_u32 :
    (v : ℕ) → v < 2 ^ 32 → u32 (v / 2 ^ 24 % 256) (v / 2 ^ 16 % 256) (v / 2 ^ 8 % 256) (v % 256) ≡ v
unfolding u32
u32-put_u32 v h = omega arith

module _ {E : Type 0} where
  -- A packet that the recorder makes of a frame is read as the same frame, with the time stamp of the
  -- packet, if the packet is shorter than 2^32 bytes.
  pub frame_of_packet-frame_data :
      (f : Frame)
      → 5 + length f.bytes < 2 ^ 32
      → frame_of_packet {E = E} f.timestamp (frame_data f.direction f.bytes) ≡ ok f
  unfolding frame_of_packet frame_data put_u32
  frame_of_packet-frame_data f h =
      rw
        (
          stated,
          ltb-false (length f.bytes) (length f.bytes) (omega arith),
          lt→ltb (5 + length f.bytes) (2 ^ 32) h,
          take_all f.bytes,
        )
        refl
    where
      small : length f.bytes % 2 ^ 32 ≡ length f.bytes
      small = omega arith

      stated :
          u32
            (length f.bytes % 2 ^ 32 / 2 ^ 24 % 256)
            (length f.bytes % 2 ^ 32 / 2 ^ 16 % 256)
            (length f.bytes % 2 ^ 32 / 2 ^ 8 % 256)
            (length f.bytes % 2 ^ 32 % 256)
          ≡ length f.bytes
      stated = u32-put_u32 (length f.bytes % 2 ^ 32) (omega arith) ∙ small

-- The packet that holds a frame.
abbrev pub packet_of : Frame → ℕ × List ℕ
packet_of f = (f.timestamp, frame_data f.direction f.bytes)

abbrev pub IsSmall : Frame → Type 0
IsSmall f = 5 + length f.bytes < 2 ^ 32

module _ {W E : Type 0} where
  -- The frames written one after another.
  abbrev pub recorded : (ℕ → List ℕ → W → W × Option E) → Recorder W → List Frame → Recorder W
  recorded write r [] = r
  recorded write r (f ∷ fs) = recorded write (write_frame write r f).0 fs

  -- A writer that accepts each packet and stores it behind those that it holds.
  pub record Keeps (stored : W → List (ℕ × List ℕ)) (write : ℕ → List ℕ → W → W × Option E)
      : Type 0 where
    pub accepts : (t : ℕ) (p : List ℕ) (w : W) → (write t p w).1 ≡ none
    pub behind : (t : ℕ) (p : List ℕ) (w : W) → stored (write t p w).0 ≡ stored w ++ ((t, p) ∷ [])

  write_frame_open :
      (stored : W → List (ℕ × List ℕ)) (write : ℕ → List ℕ → W → W × Option E)
      → (k : Keeps stored write) → (f : Frame) (w : W) (n : ℕ)
      → (write_frame write (record { writer = w; is_open = true; frame_count = n }) f).0 ≡ record {
        writer = (write f.timestamp (frame_data f.direction f.bytes) w).0;
        is_open = true;
        frame_count = add64 n 1;
      }
  unfolding write_frame
  write_frame_open stored write k f w n =
      rw (k.accepts f.timestamp (frame_data f.direction f.bytes) w) refl

  recorded-stored :
      (stored : W → List (ℕ × List ℕ)) (write : ℕ → List ℕ → W → W × Option E)
      → (k : Keeps stored write) → (fs : List Frame) (w : W) (n : ℕ)
      → stored (recorded write (record { writer = w; is_open = true; frame_count = n }) fs).writer
        ≡ stored w ++ map packet_of fs
  recorded-stored stored write k [] w n = sym (append-nil (stored w))
  recorded-stored stored write k (f ∷ fs) w n =
      ap (λ r. stored (recorded write r fs).writer) (write_frame_open stored write k f w n)
      ∙ recorded-stored stored write k fs _ (add64 n 1)
      ∙ ap (λ l. l ++ map packet_of fs) (k.behind f.timestamp (frame_data f.direction f.bytes) w)
      ∙ append_assoc (stored w) (packet_of f ∷ []) (map packet_of fs)

module _ {R E : Type 0} where
  -- A reader that gives the packets in order, and then the end.
  abbrev pub Yields : (R → R × Packet E) → R → List (ℕ × List ℕ) → Type 0
  Yields read r [] = (read r).1 ≡ ended
  Yields read r (p ∷ ps) = ((read r).1 ≡ packet p.0 p.1) × Yields read (read r).0 ps

  read_all-Yields :
      (read : R → R × Packet E) (fs : List Frame) (r : R) (before : List Frame)
      → All IsSmall fs
      → Yields read r (map packet_of fs)
      → read_all (suc (length fs)) read r before ≡ some (before ++ fs, none)
  unfolding read_all read_frame
  read_all-Yields read [] r before h y = rw y (ap (λ l. some (l, none)) (sym (append-nil before)))
  read_all-Yields read (f ∷ fs) r before h y =
      rw (y.0, frame_of_packet-frame_data {E = E} f h.0)
        (read_all-Yields read fs (read r).0 (before ++ (f ∷ [])) h.1 y.1
          ∙ ap (λ l. some (l, none)) (append_assoc before (f ∷ []) fs))

-- Frames that are recorded through a writer that stores each packet behind those it holds, from an
-- empty one on, are all played back in order, with their directions, times and bytes, by a reader that
-- gives what was stored, if each packet is shorter than 2^32 bytes. One round more than there are
-- frames is enough.
pub read_all-recorded :
    {W R E : Type 0}
    → (stored : W → List (ℕ × List ℕ)) (write : ℕ → List ℕ → W → W × Option E)
    → (read : R → R × Packet E) (fs : List Frame) (w : W) (r : R) → Keeps stored write
    → stored w ≡ []
    → All IsSmall fs
    → Yields read r (stored (recorded write (new_recorder w) fs).writer)
    → read_all (suc (length fs)) read r [] ≡ some (fs, none)
read_all-recorded stored write read fs w r k empty small y =
    read_all-Yields read fs r [] small (subst (Yields read r) held y)
  where
    held : stored (recorded write (new_recorder w) fs).writer ≡ map packet_of fs
    held = recorded-stored stored write k fs w 0 ∙ ap (λ l. l ++ map packet_of fs) empty

module _ {W E : Type 0} (flush shut : W → W × Option E) where
  close_shuts : (r : Recorder W) → (close flush shut r).0.is_open ≡ false
  unfolding close
  close_shuts r = elim (Bool-cases r.is_open) [ inl e ↦ rw e refl | inr n ↦ rw n refl ]

  close_shut : (r : Recorder W) → r.is_open ≡ false → close flush shut r ≡ (r, ok tt)
  unfolding close
  close_shut r n = rw n refl

write_frame_shut :
    {W E : Type 0}
    → (write : ℕ → List ℕ → W → W × Option E) (r : Recorder W) (f : Frame) → r.is_open ≡ false
    → write_frame write r f ≡ (r, err not_open)
unfolding write_frame
write_frame_shut write r f n = rw n refl

-- Once `Close` has been called, whatever it returned, no frame is written any more, and a further
-- `Close` succeeds and does nothing.
pub write_frame-close :
    {W E : Type 0}
    → (write : ℕ → List ℕ → W → W × Option E) (flush shut : W → W × Option E)
    → (r : Recorder W) (f : Frame)
    → let r' = (close flush shut r).0 in
      (write_frame write r' f ≡ (r', err not_open)) × (close flush shut r' ≡ (r', ok tt))
write_frame-close write flush shut r f = (
  write_frame_shut write _ f (close_shuts flush shut r),
  close_shut flush shut _ (close_shuts flush shut r),
)
