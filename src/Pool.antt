-- ===== src/Pool.antt =====
-- edgedb-client/src/pool: the connection pool.
pub mod Inner
pub mod System
pub mod Counters
pub mod Bound
pub mod Steps
pub mod Limit
pub mod Drift
mod Tests
