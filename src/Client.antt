-- ===== src/Client.antt =====
-- edgedb-protocol/src/client_message.rs
pub mod Types
pub mod Encode
pub mod Decode
pub mod Wire
pub mod Writes
pub mod Reads
pub mod Message
pub mod RoundTrip
pub mod Safety
pub mod Faults
mod Tests
