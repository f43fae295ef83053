-- ===== src/Wire.antt =====
-- edgedb-protocol/src/encoding.rs
mod Errors
mod Bytes
mod External
pub mod Decoder
pub mod Encoder
pub mod Encoding
pub mod Frame
pub mod Extensions
pub mod Reference
mod Utf8
pub use Errors.*
unfoldable pub use Bytes.*
pub use External.*
unfoldable pub use Utf8.*
