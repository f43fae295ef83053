-- ===== src/Server.antt =====
-- edgedb-protocol/src/server_message.rs
pub mod Types
pub mod Typedescs
pub mod Encode
pub mod Decode
pub mod Message
pub mod Wire
pub mod Writes
pub mod Reads
pub mod ReadsCommands
pub mod RoundTrip
pub mod Safety
pub mod Faults
mod Tests
