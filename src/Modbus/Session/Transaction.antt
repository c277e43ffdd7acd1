-- ===== src/Modbus/Session/Transaction.antt =====
-- Whole transactions of `masterRequest` of modbus/session.go with a simulated slave.
use mocktrue.Base.{[], ℕ, zero, suc, ◌%◌, ◌<◌, ◌≤◌, ◌≡◌, ◌≢◌, ◌⊎◌, refl, ap, ◌∙◌, List, ◌∷◌, All}
use mocktrue.Base.{Bool, true, false, ==_ne, some, ok, length, arith, Text}
use mocktrue.Base.Hex.{IsByte}
use mocktrue.Modbus.Words.{IsU16, u16_pair}
use mocktrue.Modbus.Pdu
use mocktrue.Modbus.Pdu.{Pdu, bytes}
use mocktrue.Modbus.DataModel.{DataModel}
use mocktrue.Modbus.Slave.{SlaveResponse, serve, normal_response, register_read_response}
use mocktrue.Modbus.Slave.Registers.{
  write_request, read_request, written, serve_write, parse_register_read_lem, acknowledged,
}
use mocktrue.Modbus.Response.{ParsedResponse, plain, parse_response}
use mocktrue.Modbus.Frame.{rtu, ascii, encode_frame, normalize_frame_mode}
use mocktrue.Modbus.Frame.RoundTrip.{IsWire}
use mocktrue.Modbus.Session.{
  MasterRequest, Session, build_master_pdu, request_retries, Answer, attempt, attempts,
  master_request,
}
use mocktrue.Modbus.Session.Reading.{Unread}
use mocktrue.Modbus.Session.Delivery.{Cable}
use mocktrue.Modbus.Session.Line.{Line, line_write, line_read, exchange}
use mocktrue.Modbus.Session.Registers.{
  write_registers, read_registers, write_built, read_built, write_bytes, length-write, read_bytes,
  length-read, read_back, IsWire-pair, length-pair,
}

first_attempt :
    {S : Type 0} (write : S → List ℕ → Bool × S) (read : S → _ × S) (retries unit : ℕ)
    (frame : List ℕ) (s s' : S) (a : Answer)
    → attempt write read unit frame s ≡ (ok a, s')
    → attempts write read retries unit frame s ≡ (ok a, s')
unfolding attempts
first_attempt write read zero unit frame s s' a e = e
first_attempt write read (suc retries) unit frame s s' a e =
    rw (attempts, ap (λ p. p.0) e) (ap (λ p. (ok a, p.1)) e)

-- A session that is open as a master, in a mode that is supported.
abbrev pub IsReady : Session → Text → Type 0
IsReady session mode =
    (session.port_open ≡ true)
    × (session.slave_running ≡ false)
    × (normalize_frame_mode session.mode ≡ mode)
    × ((mode ≡ rtu) ⊎ (mode ≡ ascii))

sent_request :
    {S : Type 0} (write : S → List ℕ → Bool × S) (read : S → _ × S) (session : Session)
    (mode : Text) (req : MasterRequest) (s : S) (pdu : Pdu) (frame : List ℕ)
    → IsReady session mode
    → req.unit ≢ 0
    → build_master_pdu req ≡ ok pdu
    → encode_frame mode req.unit pdu ≡ ok frame
    → master_request write read session req s
      ≡ attempts write read (request_retries req.retries session.retries) req.unit frame s
unfolding master_request
sent_request write read session mode req s pdu frame (o, r, n, md) nz built sent =
    rw (master_request, ==_ne req.unit 0 nz, o, r, built, n, sent) refl

-- A transaction, when the slave simulates the unit and its response parses: the master has the
-- response, and the slave the model that the request leaves.
transaction :
    (cable : Cable) (session : Session) (mode : Text) (req : MasterRequest) (pdu : Pdu)
    (response : SlaveResponse) (parsed : ParsedResponse) (m m' : DataModel) (line : Line)
    → IsReady session mode
    → ((frame : List ℕ) → mode ≡ rtu → length frame ≤ 256 → Unread rtu [] (cable.pieces frame))
    → req.unit ≢ 0
    → build_master_pdu req ≡ ok pdu
    → IsWire req.unit pdu
    → length (req.unit ∷ bytes pdu) ≤ 254
    → IsWire req.unit response.pdu
    → length (req.unit ∷ bytes response.pdu) ≤ 254
    → line.units req.unit ≡ some m
    → serve pdu m ≡ (response, m')
    → parse_response response.pdu ≡ ok parsed
    → (a : Answer) × (line' : Line) × (master_request
          (line_write cable mode)
          (line_read cable mode)
          session
          req
          line
        ≡ (ok a, line'))
      × (a.response ≡ parsed)
      × (line'.units req.unit ≡ some m')
transaction cable session mode req pdu response parsed m m' line ready unread nz built w short w'
      short' sim served parses =
    let (frame, a, line', sent, attempted, answer, model) =
      exchange cable mode req.unit pdu response parsed m m' line ready.3 unread nz w short w' short'
        sim served parses in
    (
      a,
      line',
      sent_request (line_write cable mode) (line_read cable mode) session mode req line pdu frame
            ready nz built sent
          ∙ first_attempt (line_write cable mode) (line_read cable mode)
              (request_retries req.retries session.retries) req.unit frame line line' a attempted,
      answer,
      model,
    )

-- Over a line to a slave that simulates the unit, the transaction that writes 1 to 123 registers
-- succeeds and is acknowledged with their number, and the transaction that reads them next returns the
-- values that were written. In ASCII mode a frame may come in any pieces of at most 256 bytes; in RTU
-- mode the condition is that a frame of at most 256 bytes comes in pieces behind none of which, but the
-- last, what has been read is itself a frame.
pub registers_over_line :
    (cable : Cable) (session : Session) (mode : Text) (unit address : ℕ) (vs : List ℕ)
    (m : DataModel) (line : Line)
    → IsReady session mode
    → ((frame : List ℕ) → mode ≡ rtu → length frame ≤ 256 → Unread rtu [] (cable.pieces frame))
    → unit ≢ 0
    → IsByte unit
    → IsU16 address
    → All IsU16 vs
    → 0 < length vs
    → length vs ≤ 123
    → line.units unit ≡ some m
    → (a : Answer) × (b : Answer) × (line' : Line) × (line'' : Line) × (master_request
          (line_write cable mode)
          (line_read cable mode)
          session
          (write_registers unit address vs)
          line
        ≡ (ok a, line'))
      × (master_request
            (line_write cable mode)
            (line_read cable mode)
            session
            (read_registers unit address (length vs))
            line'
          ≡ (ok b, line''))
      × (a.response.quantity ≡ length vs)
      × (b.response.values ≡ vs)
unfolding normal_response
registers_over_line cable session mode unit address vs m line ready unread nz byte ha hv pos few
      sim =
    let n = length vs % 65536 in
    let exact : n ≡ length vs = omega arith in
    let ack : Pdu = record {
      function = Pdu.write_multiple_registers;
      payload = u16_pair address n;
    } in
    let (a, line', sent, answer, model) =
      transaction cable session mode (write_registers unit address vs) (write_request address vs)
        (normal_response ack) (record (plain ack) { address = address; quantity = n }) m
        (written m address vs) line ready unread nz (write_built unit address vs pos few)
        (write_bytes unit address vs byte) (length-write unit address vs few)
        (IsWire-pair unit address n Pdu.write_multiple_registers byte (omega arith))
        (length-pair unit address n Pdu.write_multiple_registers) sim
        (serve_write m address vs ha hv pos few) (acknowledged address n ha (omega arith)) in
    let reading : Pdu = register_read_response Pdu.read_holding_registers vs in
    let (b, line'', sent', answer', model') =
      transaction cable session mode (read_registers unit address (length vs))
        (read_request address (length vs)) (normal_response reading)
        (record (plain reading) { values = vs }) (written m address vs) (written m address vs) line'
        ready unread nz (read_built unit address (length vs) (omega arith))
        (IsWire-pair unit address (length vs) Pdu.read_holding_registers byte (omega arith))
        (length-pair unit address (length vs) Pdu.read_holding_registers)
        (read_bytes unit vs byte few) (length-read unit vs few) model
        (read_back m address vs ha pos few) (parse_register_read_lem vs hv (omega arith)) in
    (
      a,
      b,
      line',
      line'',
      sent,
      sent',
      ap (λ r. r.quantity) answer ∙ exact,
      ap (λ r. r.values) answer',
    )
