-- ===== src/Visual.antt =====
-- The checksums of internal/modules/serial/protocol/visual.
pub mod Checksum
mod Tests
