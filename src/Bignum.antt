-- ===== src/Bignum.antt =====
-- edgedb-protocol/src/model/bignum.rs
pub mod BigInt
pub mod Normalize
pub mod Value
mod Tests
