-- ===== src/Modbus.antt =====
-- The Modbus codec of internal/modules/serial/modbus: frames, requests, responses, slave.
pub mod Words
pub mod Pdu
pub mod Checksum
pub mod Frame
pub mod Bits
pub mod Request
pub mod Response
pub mod DataModel
pub mod Slave
pub mod Scan
pub mod Units
pub mod Session
pub mod Address
mod Tests
