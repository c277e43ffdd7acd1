-- ===== src/Fecbus.antt =====
-- The FECbus codec of internal/modules/serial/fecbus: function codes, frames, framing.
pub mod Function
pub mod Checksum
pub mod Frame
pub mod Extract
pub mod HexText
mod Tests
