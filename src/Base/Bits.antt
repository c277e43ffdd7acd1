-- ===== src/Base/Bits.antt =====
-- Bit operations at variables: the law of the lowest digit, and what the protocols need of it.
mod Digits
mod Tables
mod Xor
pub use Digits.*
unfoldable pub use Tables.*
pub use Xor.*
