-- ===== src/Buffer.antt =====
-- The receive buffers of internal/modules/serial/buffer.
pub mod Ring
pub mod Index
