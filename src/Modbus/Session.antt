-- ===== src/Modbus/Session.antt =====
-- The reading of frames and the transactions of a master in modbus/session.go.
pub mod Reading
pub mod Delivery
pub mod Line
pub mod Registers
pub mod Transaction
mod Tests
use mocktrue.Base.{
  ℕ, zero, suc, ◌+◌, ◌≤◌, List, [], ◌∷◌, ◌++◌, Bool, true, false, Option, none, some,
}
use mocktrue.Base.{
  ltb, ◌==◌, not, ◌&&◌, ◌||◌, if◌then◌else◌, length, text_eq, Text, Result, ok, err, ◌>>=◌, ◌>>◌,
  fail_if, All,
}
use mocktrue.Modbus.Pdu
use mocktrue.Modbus.Pdu.{Pdu}
use mocktrue.Modbus.Frame
use mocktrue.Modbus.Frame.{DecodedFrame, ascii, encode_frame, decode_frame, normalize_frame_mode}
use mocktrue.Modbus.Request
use mocktrue.Modbus.Request.{build_read_request, build_write_single_request}
use mocktrue.Modbus.Request.{
  build_write_multiple_coils_request, build_write_multiple_registers_request,
}
use mocktrue.Modbus.Response
use mocktrue.Modbus.Response.{ParsedResponse, parse_response}
use mocktrue.Modbus.DataModel.{DataModel}
use mocktrue.Modbus.Slave.{SlaveResponse, serve, exception_response}
use mocktrue.Modbus.Address
use mocktrue.Modbus.Address.{protocol_address}

-- The errors of a transaction: those of the layers below, and those of the session.
pub data Error : Type 0 where
  unit_id closed slave_running unsupported_function : Error
  address_error : Address.Error → Error
  request_error : Request.Error → Error
  frame_error : Frame.Error → Error
  response_error : Response.Error → Error
  read_stopped response_timeout port_failed frame_too_long write_failed unexpected_unit
        transaction_failed :
      Error

-- What a round of the read loop meets: the stop channel closed, the deadline passed, the port gone, an
-- error of the port, or the bytes that it read into its buffer of 256, of which there may be none.
pub data Event : Type 0 where
  stopped late gone failed : Event
  received : (bs : List ℕ) → length bs ≤ 256 → Event

abbrev pub max_frame_bytes : ℕ
max_frame_bytes = 513

-- `buf[:idx+2]` for the first "\r\n", when there is one.
unfoldable pub through_crlf : List ℕ → Option (List ℕ)
through_crlf [] = none
through_crlf (a ∷ []) = none
through_crlf (a ∷ b ∷ rest) =
    let more = through_crlf (b ∷ rest) in
    if a == 13 && b == 10
    then some (a ∷ b ∷ [])
    else elim more [ none ↦ none | some taken ↦ some (a ∷ taken) ]

abbrev pub Frames : Type 0
Frames = Result Error (List ℕ × DecodedFrame)

-- The error of `DecodeFrame` in ASCII mode is that of the read.
abbrev pub decoded_as : Text → List ℕ → Frames
decoded_as mode frame = elim (decode_frame mode frame) [
  | ok d ↦ ok (frame, d)
  | err e ↦ err (frame_error e)
]

-- What a buffer of at most `max_frame_bytes` holds, if it holds a frame already.
unfoldable pub complete : Text → List ℕ → Option Frames
complete mode buf =
    if text_eq mode ascii
    then elim (through_crlf buf) [ some frame ↦ some (decoded_as mode frame) | none ↦ none ]
    else elim (decode_frame mode buf) [ ok d ↦ some (ok (buf, d)) | err e ↦ none ]

-- `readFrame` on what the rounds of its loop meet: its result with the rounds that are left, or
-- nothing while it waits for more.
unfoldable pub read_frame : Text → List ℕ → List Event → Option (Frames × List Event)
read_frame mode buf [] = none
read_frame mode buf (stopped ∷ events) = some (err read_stopped, events)
read_frame mode buf (late ∷ events) = some (err response_timeout, events)
read_frame mode buf (gone ∷ events) = some (err closed, events)
read_frame mode buf (failed ∷ events) = some (err port_failed, events)
read_frame mode buf (received [] fits ∷ events) = read_frame mode buf events
read_frame mode buf (received (b ∷ bs) fits ∷ events) =
    let more = buf ++ (b ∷ bs) in
    let later = read_frame mode more events in
    if ltb max_frame_bytes (length more)
    then some (err frame_too_long, events)
    else elim (complete mode more) [ some frames ↦ some (frames, events) | none ↦ later ]

-- Rounds that read one piece after another.
unfoldable pub arrivals : (pieces : List (List ℕ)) → All (λ p. length p ≤ 256) pieces → List Event
arrivals [] fits = []
arrivals (p ∷ pieces) (fit, fits) = received p fit ∷ arrivals pieces fits

-- `MasterRequest`, its identifiers and times aside.
pub record MasterRequest : Type 0 where
  pub unit : ℕ
  pub function : ℕ
  pub address_mode : Text
  pub address : ℕ
  pub quantity : ℕ
  pub value : ℕ
  pub coil_values : List Bool
  pub register_values : List ℕ
  pub retries : ℕ

-- What `masterRequest` reads of the session: whether its port is open and it is not closed, whether
-- it runs a slave, and its settings.
pub record Session : Type 0 where
  pub port_open : Bool
  pub slave_running : Bool
  pub mode : Text
  pub retries : ℕ

abbrev as_request : Result Request.Error Pdu → Result Error Pdu
as_request (ok pdu) = ok pdu
as_request (err e) = err (request_error e)

unfoldable pub build_request : MasterRequest → ℕ → Result Error Pdu
build_request req address =
    if f == Pdu.read_coils
      || (f == Pdu.read_discrete_inputs
          || (f == Pdu.read_holding_registers || f == Pdu.read_input_registers))
    then as_request (build_read_request f address req.quantity)
    else if f == Pdu.write_single_coil || f == Pdu.write_single_register
    then as_request (build_write_single_request f address req.value)
    else if f == Pdu.write_multiple_coils
    then as_request (build_write_multiple_coils_request address req.coil_values)
    else if f == Pdu.write_multiple_registers
    then as_request (build_write_multiple_registers_request address req.register_values)
    else err unsupported_function
  where
    f : ℕ
    f = req.function

unfoldable pub build_master_pdu : MasterRequest → Result Error Pdu
build_master_pdu req = elim (protocol_address req.address_mode req.function req.address) [
  | ok address ↦ build_request req address
  | err e ↦ err (address_error e)
]

unfoldable pub request_retries : ℕ → ℕ → ℕ
request_retries request session =
    if ltb 0 request then request else if ltb 0 session then session else 0

-- The answer to one attempt.
pub record Answer : Type 0 where
  pub frame : List ℕ
  pub pdu : Pdu
  pub response : ParsedResponse

unfoldable pub check_answer : ℕ → List ℕ × DecodedFrame → Result Error Answer
check_answer unit (frame, decoded) =
    if not (decoded.unit == unit) then err unexpected_unit else elim (parse_response decoded.pdu) [
      | ok response ↦ ok record { frame = frame; pdu = decoded.pdu; response = response }
      | err e ↦ err (response_error e)
    ]

-- The port and what is behind it in a state: a write, which may fail, and the read of a frame. A read
-- that waits for ever does not come back from here; its deadline sees to that.
module _ {S : Type 0} (write : S → List ℕ → Bool × S) (read : S → Frames × S) where
  unfoldable pub attempt : ℕ → List ℕ → S → Result Error Answer × S
  attempt unit frame s =
      let (written, s') = write s frame in
      let (frames, s'') = read s' in
      if not written then (err write_failed, s') else (frames >>= check_answer unit, s'')

  -- `retries` more attempts behind this one, while they fail; the last error is returned.
  unfoldable pub attempts : ℕ → ℕ → List ℕ → S → Result Error Answer × S
  attempts zero unit frame s = attempt unit frame s
  attempts (suc retries) unit frame s =
      let (answer, s') = attempt unit frame s in
      let again = attempts retries unit frame s' in
      elim answer [ ok a ↦ (ok a, s') | err e ↦ again ]

  -- `masterRequest`, without the record of the transaction.
  unfoldable pub master_request : Session → MasterRequest → S → Result Error Answer × S
  master_request session req s =
      if req.unit == 0
      then (err unit_id, s)
      else if not session.port_open
      then (err closed, s)
      else if session.slave_running
      then (err slave_running, s)
      else elim (build_master_pdu req) [
        | err e ↦ (err e, s)
        | ok pdu ↦ elim (encode_frame (normalize_frame_mode session.mode) req.unit pdu) [
          | err e ↦ (err (frame_error e), s)
          | ok frame ↦ attempts (request_retries req.retries session.retries) req.unit frame s
        ]
      ]

abbrev pub server_failure : ℕ
server_failure = 0x04

-- The data models of the units that a slave simulates.
abbrev pub Units : Type 0
Units = ℕ → Option DataModel

abbrev pub put_unit : Units → ℕ → DataModel → Units
put_unit units unit model u = if u == unit then some model else units u

-- A round of `slaveLoop` on a frame that was read: the response, and the units with the model that it
-- leaves; a unit that is not simulated answers with an exception.
unfoldable pub slave_response : Units → DecodedFrame → SlaveResponse × Units
slave_response units d = elim (units d.unit) [
  | some model ↦
      let (response, model') = serve d.pdu model in (response, put_unit units d.unit model')
  | none ↦ (exception_response d.pdu.function server_failure, units)
]

unfoldable pub slave_round : Text → Units → DecodedFrame → Result Frame.Error (List ℕ) × Units
slave_round mode units d =
    let (response, units') = slave_response units d in
    (encode_frame mode d.unit response.pdu, units')
