-- ===== src/Base64.antt =====
-- src/nbs-chat/base64.c and the size helpers of src/nbs-chat/base64.h.
mod Defs
pub mod Sextets
pub mod Grammar
pub mod Decode
pub mod RoundTrip
pub mod Strip
pub mod Codec
mod Tests
unfoldable pub use Defs.*
