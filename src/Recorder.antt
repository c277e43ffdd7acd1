-- ===== src/Recorder.antt =====
-- recorder/recorder.go and recorder/playback.go. The pcap-ng writer and reader and the files are other
-- code: `W` and `R` are their states, `E` their errors, and their calls are parameters. A time stamp
-- is a number that nothing computes with.
pub mod Laws
mod Tests
use mocktrue.Base.{
  ℕ, zero, suc, ◌+◌, ◌-◌, ◌*◌, ◌/◌, ◌%◌, ◌^◌, List, [], ◌∷◌, ◌++◌, Bool, true, false, Option, none,
  some,
}
use mocktrue.Base.{ltb, not, if◌then◌else◌, length, take, Result, ok, err}
use mocktrue.Base.Int64.{add64}

pub data Error (E : Type 0) : Type 0 where
  not_open too_short end_of_file out_of_range : Error E
  write_packet flush_pcap read_packet close_file : E → Error E

pub record Frame : Type 0 where
  pub direction : ℕ
  pub timestamp : ℕ
  pub bytes : List ℕ

-- `binary.BigEndian.PutUint32` and `Uint32`
pub put_u32 : ℕ → List ℕ
put_u32 v = (v / 2 ^ 24 % 256) ∷ (v / 2 ^ 16 % 256) ∷ (v / 2 ^ 8 % 256) ∷ (v % 256) ∷ []

pub u32 : ℕ → ℕ → ℕ → ℕ → ℕ
u32 a b c d = a * 2 ^ 24 + b * 2 ^ 16 + c * 2 ^ 8 + d

-- `[1B direction][4B length][payload]`
unfoldable pub frame_data : ℕ → List ℕ → List ℕ
unfolding put_u32
frame_data direction bytes = direction ∷ (put_u32 (length bytes % 2 ^ 32) ++ bytes)

-- What `ReadFrame` makes of one packet; a length beyond the packet is cut down to it. `5+length` is a
-- uint32: where it wraps round, the slice bounds are refused, a panic that is `out_of_range` here.
unfoldable pub frame_of_packet : {E : Type 0} → ℕ → List ℕ → Result (Error E) Frame
unfolding u32
frame_of_packet timestamp (direction ∷ a ∷ b ∷ c ∷ d ∷ rest) =
    let stated = u32 a b c d in
    let count = if ltb (length rest) stated then length rest % 2 ^ 32 else stated in
    if ltb (5 + count) (2 ^ 32)
    then ok (record { direction = direction; timestamp = timestamp; bytes = take count rest })
    else err out_of_range
frame_of_packet timestamp _ = err too_short

pub record Recorder (W : Type 0) : Type 0 where
  pub writer : W
  pub is_open : Bool
  pub frame_count : ℕ

abbrev pub new_recorder : {W : Type 0} → W → Recorder W
new_recorder writer = record { writer = writer; is_open = true; frame_count = 0 }

module _ {W E : Type 0} where
  unfoldable pub write_frame :
      (ℕ → List ℕ → W → W × Option E)
      → Recorder W
      → Frame
      → Recorder W × Result (Error E) (Unit {0})
  write_frame write r f =
      let (w', failure) = write f.timestamp (frame_data f.direction f.bytes) r.writer in
      if not r.is_open then (r, err not_open) else elim failure [
        | some e ↦ (record r { writer = w' }, err (write_packet e))
        | none ↦ (record r { writer = w'; frame_count = add64 r.frame_count 1 }, ok tt)
      ]

  -- The error of closing the file is returned as it is.
  unfoldable pub close :
      (W → W × Option E)
      → (W → W × Option E)
      → Recorder W
      → Recorder W × Result (Error E) (Unit {0})
  close flush shut r =
      let (w', failure) = flush r.writer in
      let (w'', failure') = shut w' in
      if not r.is_open then (r, ok tt) else (
        record r { is_open = false; writer = w'' },
        elim failure [
          | some e ↦ err (flush_pcap e)
          | none ↦ elim failure' [ some e ↦ err (close_file e) | none ↦ ok tt ]
        ],
      )

-- What the reader gives: a packet with its time, the end, or an error.
pub data Packet (E : Type 0) : Type 0 where
  packet : ℕ → List ℕ → Packet E
  ended : Packet E
  failed : E → Packet E

unfoldable pub read_frame : {R E : Type 0} → (R → R × Packet E) → R → R × Result (Error E) Frame
read_frame read r =
    let (r', p) = read r in
    (
      r',
      elim p [
        | packet timestamp bytes ↦ frame_of_packet timestamp bytes
        | ended ↦ err end_of_file
        | failed e ↦ err (read_packet e)
      ],
    )

-- `io.EOF` ends the loop of `ReadAll`; any other error is returned.
abbrev pub failure_of : {E : Type 0} → Error E → Option (Error E)
failure_of end_of_file = none
failure_of not_open = some not_open
failure_of too_short = some too_short
failure_of out_of_range = some out_of_range
failure_of (write_packet e) = some (write_packet e)
failure_of (flush_pcap e) = some (flush_pcap e)
failure_of (read_packet e) = some (read_packet e)
failure_of (close_file e) = some (close_file e)

-- `ReadAll` with `fuel` rounds to go: the frames gathered, and the error; `none` where the rounds do
-- not suffice.
pub read_all :
    {R E : Type 0}
    → ℕ
    → (R → R × Packet E)
    → R
    → List Frame
    → Option (List Frame × Option (Error E))
read_all zero read r frames = none
read_all (suc fuel) read r frames =
    let (r', x) = read_frame read r in
    elim x [
      | ok f ↦ read_all fuel read r' (frames ++ (f ∷ []))
      | err e ↦ some (frames, failure_of e)
    ]
