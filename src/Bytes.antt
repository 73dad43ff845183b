-- ===== src/Bytes.antt =====
-- Byte buffers: little-endian integers (`from_le_bytes`, `to_le_bytes`), sub-slices
-- (`&data[a..b]`, `data.get(a..b)`), and writes into a buffer (`copy_from_slice`, `fill`).
-- `Put` holds what a read sees after a write, `Log` the same for a list of writes.
pub mod Le
pub mod Slice
pub mod Put
pub mod Log
pub mod Read
unfoldable pub use Le.*
unfoldable pub use Slice.*
unfoldable pub use Put.*
unfoldable pub use Log.*
unfoldable pub use Read.*
