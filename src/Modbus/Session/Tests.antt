-- ===== src/Modbus/Session/Tests.antt =====
-- A frame in three pieces, and two registers over a line.
use mocktrue.Base.{
  ℕ, ◌≡◌, ◌≤◌, refl, ap, inl, inr, Bool-cases, append-nil, ltb, List, [], ◌∷◌, ◌++◌, map, true,
  false, ◌==◌, if◌then◌else◌,
}
use mocktrue.Base.{none, some, ok, codes, text_eq, to_lower, to_upper, length, arith, All}
use mocktrue.Base.Hex.{encode_hex, hex_digit}
use mocktrue.Modbus.Pdu.{Pdu, bytes}
use mocktrue.Modbus.Checksum.{lrc}
use mocktrue.Modbus.DataModel.{new_data_model}
use mocktrue.Modbus.Frame.{rtu, ascii, crlf, encode_frame, encode_ascii, normalize_frame_mode}
use mocktrue.Modbus.Frame.RoundTrip.{IsWire, decoded}
use mocktrue.Modbus.Session.{Event, arrivals, read_frame, Session, Answer, master_request}
use mocktrue.Modbus.Session.Reading.{Unread, concat, read_frame-pieces}
use mocktrue.Modbus.Session.Delivery.{Cable}
use mocktrue.Modbus.Session.Line.{Line, line_write, line_read}
use mocktrue.Modbus.Session.Registers.{write_registers, read_registers}
use mocktrue.Modbus.Session.Transaction.{IsReady, registers_over_line}

abbrev request : Pdu
request = record { function = 3; payload = 0 ∷ 0 ∷ 0 ∷ 1 ∷ [] }

abbrev frame : List ℕ
frame = codes ":010300000001FB" ++ crlf

request_frame : encode_frame ascii 1 request ≡ ok frame
unfolding encode_frame encode_ascii normalize_frame_mode text_eq to_lower to_upper encode_hex
    hex_digit lrc bytes
request_frame = refl

request_bytes : IsWire 1 request
unfolding bytes
request_bytes = ground arith

abbrev pieces : List (List ℕ)
pieces = codes ":0103" ∷ [] ∷ (codes "00000001FB" ++ crlf) ∷ []

pieces_whole : concat pieces ≡ frame
unfolding concat
pieces_whole = refl

pieces_fit : All (λ p. length p ≤ 256) pieces
pieces_fit = (omega arith, (omega arith, (omega arith, tt)))

read_frame-pieces_example :
    (left : List Event) × (read_frame ascii [] (arrivals pieces pieces_fit)
      ≡ some (ok (frame, decoded ascii 1 request), left))
read_frame-pieces_example =
    read_frame-pieces 1 request frame pieces (omega arith) request_bytes request_frame
      (ground arith) pieces_whole pieces_fit

-- A line on which each read gives one byte.
abbrev bytewise : List ℕ → List (List ℕ)
bytewise = map (λ b. b ∷ [])

bytewise_fits : (frame : List ℕ) → All (λ p. length p ≤ 256) (bytewise frame)
bytewise_fits [] = tt
bytewise_fits (b ∷ bs) = (omega arith, bytewise_fits bs)

bytewise_whole : (frame : List ℕ) → concat (bytewise frame) ≡ frame
unfolding concat
bytewise_whole [] = refl
bytewise_whole (b ∷ bs) = ap (λ t. b ∷ t) (bytewise_whole bs)

-- A line on which a frame of at most 256 bytes comes in one read.
abbrev one_read : List ℕ → List (List ℕ)
one_read frame = if ltb 256 (length frame) then bytewise frame else frame ∷ []

one_read_fits : (frame : List ℕ) → All (λ p. length p ≤ 256) (one_read frame)
one_read_fits frame = elim (Bool-cases (ltb 256 (length frame))) [
  | inl e ↦ rw e (bytewise_fits frame)
  | inr e ↦ rw e (ground arith, tt)
]

one_read_whole : (frame : List ℕ) → concat (one_read frame) ≡ frame
unfolding concat
one_read_whole frame = elim (Bool-cases (ltb 256 (length frame))) [
  | inl e ↦ rw e (bytewise_whole frame)
  | inr e ↦ rw e (append-nil frame)
]

abbrev cable : Cable
cable = record { pieces = one_read; fits = one_read_fits; whole = one_read_whole }

cable-Unread :
    (frame : List ℕ) → rtu ≡ rtu → length frame ≤ 256 → Unread rtu [] (cable.pieces frame)
unfolding Unread concat
cable-Unread frame e short = elim (Bool-cases (ltb 256 (length frame))) [
  | inl long ↦ absurd (ground (arith, long))
  | inr fits ↦ rw fits (inl refl, tt)
]

abbrev session : Session
session = record { port_open = true; slave_running = false; mode = codes "RTU"; retries = 2 }

session-IsReady : IsReady session rtu
unfolding normalize_frame_mode to_lower
session-IsReady = (refl, refl, refl, inl refl)

abbrev two : List ℕ
two = 10 ∷ 258 ∷ []

abbrev line : Line
line = record { units = λ u. if u == 17 then some new_data_model else none; pending = [] }

registers_over_line_example :
    (a : Answer) × (b : Answer) × (line' : Line) × (line'' : Line) × (master_request
        (line_write cable rtu)
        (line_read cable rtu)
        session
        (write_registers 17 65535 two)
        line
      ≡ (ok a, line'))
    × (master_request
          (line_write cable rtu)
          (line_read cable rtu)
          session
          (read_registers 17 65535 (length two))
          line'
        ≡ (ok b, line''))
    × (a.response.quantity ≡ length two)
    × (b.response.values ≡ two)
registers_over_line_example =
    registers_over_line cable session rtu 17 65535 two new_data_model line session-IsReady
      cable-Unread (omega arith) (omega arith) (omega arith) (omega arith, (omega arith, tt))
      (omega arith) (omega arith) refl
