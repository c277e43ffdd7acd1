-- ===== src/Recorder/Tests.antt =====
-- Two frames through a writer and a reader that are lists of packets.
use mocktrue.Base.{ℕ, ◌≡◌, refl, arith, List, [], ◌∷◌, ◌++◌, Option, none, some, All, ok}
use mocktrue.Recorder.{
  Frame, Packet, packet, ended, new_recorder, write_frame, frame_data, read_all, frame_of_packet,
}
use mocktrue.Recorder.Laws.{
  IsSmall, Keeps, Yields, recorded, read_all-recorded, frame_of_packet-frame_data,
}

-- No error ever occurs.
data NoError : Type 0 where
  no_error : NoError

abbrev Packets : Type 0
Packets = List (ℕ × List ℕ)

abbrev write_list : ℕ → List ℕ → Packets → Packets × Option NoError
write_list t p w = (w ++ ((t, p) ∷ []), none)

abbrev read_list : Packets → Packets × Packet NoError
read_list [] = ([], ended)
read_list ((t, p) ∷ ps) = (ps, packet t p)

abbrev received : Frame
received = record { direction = 0; timestamp = 5; bytes = 1 ∷ 2 ∷ 3 ∷ [] }

abbrev sent : Frame
sent = record { direction = 1; timestamp = 8; bytes = [] }

abbrev both : List Frame
both = received ∷ sent ∷ []

abbrev file : Packets
file = (5, frame_data 0 (1 ∷ 2 ∷ 3 ∷ [])) ∷ (8, frame_data 1 []) ∷ []

write_list-Keeps : Keeps (λ w. w) write_list
write_list-Keeps = record { accepts = λ t p w. refl; behind = λ t p w. refl }

both-IsSmall : All IsSmall both
both-IsSmall = (omega arith, (omega arith, tt))

both_yielded : Yields read_list file (recorded write_list (new_recorder []) both).writer
unfolding write_frame
both_yielded = (refl, (refl, refl))

read_all-recorded_example : read_all 3 read_list file [] ≡ some (both, none)
read_all-recorded_example =
    read_all-recorded (λ w. w) write_list read_list both [] file write_list-Keeps refl both-IsSmall
      both_yielded

header : frame_data 1 (9 ∷ []) ≡ 1 ∷ 0 ∷ 0 ∷ 0 ∷ 1 ∷ 9 ∷ []
unfolding frame_data
header = refl

frame_of_packet-frame_data_example :
    frame_of_packet {E = NoError} received.timestamp (frame_data received.direction received.bytes)
    ≡ ok received
frame_of_packet-frame_data_example = frame_of_packet-frame_data received (omega arith)

abbrev flush_list : Packets → Packets × Option NoError
flush_list w = (w, none)
