-- ===== src/Modbus/Session/Line.antt =====
-- A master of modbus/session.go and a simulated slave at the two ends of a line.
use mocktrue.Base.{ℕ, ◌≤◌, ◌≡◌, ◌≢◌, ◌⊎◌, refl, List, [], ◌∷◌}
use mocktrue.Base.{Bool, true, ==_refl, Option, none, some, Result, ok, err, length, Text}
use mocktrue.Modbus.Pdu.{Pdu, bytes}
use mocktrue.Modbus.DataModel.{DataModel}
use mocktrue.Modbus.Slave.{SlaveResponse, serve}
use mocktrue.Modbus.Response.{ParsedResponse, parse_response}
use mocktrue.Modbus.Frame
use mocktrue.Modbus.Frame.{DecodedFrame, rtu, ascii, encode_frame}
use mocktrue.Modbus.Frame.RoundTrip.{IsWire, decoded}
use mocktrue.Modbus.Session.{
  response_timeout, Event, Frames, read_frame, Units, put_unit, slave_response, slave_round,
}
use mocktrue.Modbus.Session.{Answer, check_answer, attempt}
use mocktrue.Modbus.Session.Reading.{Unread}
use mocktrue.Modbus.Session.Delivery.{Cable, arriving, Delivered, delivered}

-- The units of the slave, and the bytes that it sent last.
pub record Line : Type 0 where
  pub units : Units
  pub pending : List ℕ

answered : Line → Result Frame.Error (List ℕ) × Units → Line
answered line (ok frame, units) = record { units = units; pending = frame }
answered line (err e, units) = record { units = units; pending = [] }

slave_reads : Text → Line → Option (Frames × List Event) → Line
slave_reads mode line (some (ok (frame, d), left)) = answered line (slave_round mode line.units d)
slave_reads mode line (some (err e, left)) = line
slave_reads mode line none = line

pub line_write : Cable → Text → Line → List ℕ → Bool × Line
line_write cable mode line frame =
    (true, slave_reads mode line (read_frame mode [] (arriving cable frame)))

master_reads : Option (Frames × List Event) → Frames
master_reads (some (frames, left)) = frames
master_reads none = err response_timeout

pub line_read : Cable → Text → Line → Frames × Line
line_read cable mode line = (master_reads (read_frame mode [] (arriving cable line.pending)), line)

module _ (cable : Cable) (mode : Text) (unit : ℕ) (pdu : Pdu) (response : SlaveResponse)
    (m m' : DataModel) (line : Line) (sim : line.units unit ≡ some m)
    (served : serve pdu m ≡ (response, m')) where
  after : List ℕ → Line
  after frame' = record { units = put_unit line.units unit m'; pending = frame' }

  responds :
      slave_response line.units (decoded mode unit pdu) ≡ (response, put_unit line.units unit m')
  unfolding slave_response
  responds = rw (slave_response, sim, served) refl

  slave_turn :
      (frame frame' : List ℕ) (left : List Event)
      → read_frame mode [] (arriving cable frame) ≡ some (ok (frame, decoded mode unit pdu), left)
      → encode_frame mode unit response.pdu ≡ ok frame'
      → line_write cable mode line frame ≡ (true, after frame')
  unfolding line_write slave_reads answered slave_round after
  slave_turn frame frame' left read sent' =
      rw (line_write, read, slave_reads, slave_round, responds, sent') refl

  checked :
      (frame' : List ℕ) (parsed : ParsedResponse)
      → parse_response response.pdu ≡ ok parsed
      → check_answer unit (frame', decoded mode unit response.pdu)
        ≡ ok record { frame = frame'; pdu = response.pdu; response = parsed }
  unfolding check_answer
  checked frame' parsed parses = rw (==_refl unit, parses) refl

  master_turn :
      (frame frame' : List ℕ) (left left' : List Event) (parsed : ParsedResponse)
      → read_frame mode [] (arriving cable frame) ≡ some (ok (frame, decoded mode unit pdu), left)
      → encode_frame mode unit response.pdu ≡ ok frame'
      → read_frame mode [] (arriving cable frame')
        ≡ some (ok (frame', decoded mode unit response.pdu), left')
      → parse_response response.pdu ≡ ok parsed
      → attempt (line_write cable mode) (line_read cable mode) unit frame line
        ≡ (ok record { frame = frame'; pdu = response.pdu; response = parsed }, after frame')
  unfolding attempt line_read master_reads after
  master_turn frame frame' left left' parsed read sent' read' parses =
      rw
        (
          attempt,
          slave_turn frame frame' left read sent',
          line_read,
          read',
          checked frame' parsed parses,
        )
        refl

-- An attempt, when the slave simulates the unit and its response parses.
pub exchange :
    (cable : Cable) (mode : Text) (unit : ℕ) (pdu : Pdu) (response : SlaveResponse)
    (parsed : ParsedResponse) (m m' : DataModel) (line : Line)
    → (mode ≡ rtu) ⊎ (mode ≡ ascii)
    → ((frame : List ℕ) → mode ≡ rtu → length frame ≤ 256 → Unread rtu [] (cable.pieces frame))
    → unit ≢ 0
    → IsWire unit pdu
    → length (unit ∷ bytes pdu) ≤ 254
    → IsWire unit response.pdu
    → length (unit ∷ bytes response.pdu) ≤ 254
    → line.units unit ≡ some m
    → serve pdu m ≡ (response, m')
    → parse_response response.pdu ≡ ok parsed
    → (frame : List ℕ) × (a : Answer) × (line' : Line) × (encode_frame mode unit pdu ≡ ok frame)
      × (attempt (line_write cable mode) (line_read cable mode) unit frame line ≡ (ok a, line'))
      × (a.response ≡ parsed)
      × (line'.units unit ≡ some m')
unfolding Delivered after
exchange cable mode unit pdu response parsed m m' line md unread nz w short w' short' sim served
      parses =
    let (frame, left, sent, read) = delivered cable mode unit pdu md unread nz w short in
    let (frame', left', sent', read') =
      delivered cable mode unit response.pdu md unread nz w' short' in
    (
      frame,
      record { frame = frame'; pdu = response.pdu; response = parsed },
      record { units = put_unit line.units unit m'; pending = frame' },
      sent,
      master_turn cable mode unit pdu response m m' line sim served frame frame' left left' parsed
          read sent' read' parses,
      refl,
      rw (==_refl unit) refl,
    )
