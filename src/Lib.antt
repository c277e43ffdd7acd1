-- ===== src/Lib.antt =====
-- The serial protocols and receive buffers of PortWeave: a Modbus codec with a data model and a slave,
-- a FECbus codec with the framing of its receive buffer, and the ring buffer and index behind every
-- monitored port. A master session builds a request PDU, frames it and sends it; the slave decodes the
-- frame, serves the PDU on its data model and frames the answer, which the master decodes and parses.
-- The bytes that a port receives are appended to a ring buffer, from which the user interface queries
-- ranges by offset, and an index finds offsets by time. A parser that the user configures tests the
-- checksums of frames, and filters that the user writes choose what a graph passes on. A recorder writes frames into packets of a file, from which they are played
-- back. A registry starts the modules of the application behind those that they depend on and stops
-- them in reverse. The modules tell each other and the frontend of their events over an event bus.
--
-- Files and code, with paths below internal/modules/serial where they do not begin with internal:
--   Base: Booleans, lists, options, results, text, hex strings (encoding/hex), 64-bit integers and the
--     lemmas on them that the parts share.
--   Modbus: modbus/protocol.go and modbus/datamodel.go. Words has u16, beU16 and bytesToU16s; Pdu the
--     PDU and the codes; Checksum CRC16 and LRC; Frame EncodeFrame and DecodeFrame; Bits packBits and
--     unpackBits; Request BuildReadRequest to BuildWriteMultipleRegistersRequest; Response
--     ParseResponse; Address ProtocolAddress; DataModel the tables; Slave BuildSlaveResponse. Session is
--     the reading of frames, masterRequest and a round of slaveLoop in modbus/session.go, Scan
--     its scanRegisters, and Units its simulated units: startSlave, stopSlave, the two parts of close, setError,
--     setDataModel and the operations on one unit, each a step as the mutex makes it; the channels
--     that stop the loop, the times and the texts of errors are left out.
--   Fecbus: fecbus/protocol.go, fecbus/function.go and the frame of fecbus/types.go. Function has
--     LookupFunction and IsFunctionAllowed; Checksum CRC16; Frame EncodeFrame, DecodeFrame,
--     validateFrameFields, BuildStatusAnswer and BuildData; Extract ExtractFrame;
--     HexText ParseHex and FormatHex.
--   EventBus: internal/core/eventbus/bus.go: New, Subscribe with its cancel function, Publish and
--     BridgeToFrontend.
--   Visual: protocol/visual/checksum.go: Checksum and its CRC loops.
--   Recorder: recorder/recorder.go and recorder/playback.go: WriteFrame, Close, ReadFrame, ReadAll.
--   GraphFilter: graph_filter.go. Candidate has what a filter is matched against, its fields and the
--     comparisons; Token tokenizeSerialGraphFilterExpression; Parser serialGraphFilterParser; Match
--     matchSerialGraphFilter with its three modes. Language is not code: it is the syntax, the meaning
--     and the written form of the expressions.
--   Registry: internal/core/module/registry.go. Registry has Register, Order orderLocked, Lifecycle
--     InitAll, StartAll, StopAll and DisposeAll as the calls that the modules see.
--   Buffer: Ring is buffer/ring.go with buffer/chunk.go, Index is buffer/index.go.
--
-- How the code is read. A byte is a number below 256 and a uint16 one below 65536; a conversion that
-- cuts bits off is written as a remainder. An int64 is its pattern below 2^64, its order the signed
-- one. A slice is a list; where the code reads or cuts a slice at an index, its tests have made sure
-- that the index is in range. A Go map is a function into an option. An error is a value of a type
-- with one constructor per message, without the values printed in it; a function that may fail gives a
-- result. A Must function and unpackBits give `none` for the panic, and ParseResponse an error for that of
-- unpackBits. A method under a mutex is one step, a function from the state to the state; one that
-- frees the mutex in between is several. strings.ToLower and strings.ToUpper are read on ASCII,
-- and so are the blanks that a filter drops. The order in which range meets the entries of a map is
-- an argument. time.Now is an
-- argument. The capacity of a slice that is made empty has no effect on values and is left out, so
-- that memory is not bounded here.
--
-- Loops are recursion on the list they run through, or on the number of rounds that are left. The
-- binary search of Go's sort.Search has the number of entries as fuel, and each round takes one from
-- it and at least one from the range. The filter's tokenizer has a round for each byte and one more,
-- its parser five calls for each token and five more; orderLocked has a round for each module and one
-- more. That these are enough is proved. ReadAll has as many rounds as it is given; one more than the
-- packets that the reader gives are enough. The pcap-ng writer and reader are parameters, and what is
-- said of them is a hypothesis. The read loop of a session runs through what its rounds meet; a
-- transaction and a scan take the port, or the session below them, as parameters. A scan has as many
-- rounds as there are addresses, which is proved to be enough. regexp.Compile is a parameter of the filters.
-- How the frames on a line are cut into reads is a parameter, a Cable.
--
-- Not modelled: the FECbus session, the table of Modbus sessions, ports, monitors, graphs and scripts, which
-- mostly call drivers and third-party engines; the application shell, the MCP server and the frontend; the texts
-- of FECbus function codes.
pub mod Base
pub mod Modbus
pub mod Fecbus
pub mod Buffer
pub mod GraphFilter
pub mod Visual
pub mod EventBus
pub mod Recorder
pub mod Registry
