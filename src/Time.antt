-- ===== src/Time.antt =====
-- edgedb-protocol/src/model/time.rs
pub mod Int
pub mod LocalTime
pub mod LocalDatetime
pub mod LocalDate
pub mod Calendar
pub mod Durations
pub mod RelativeDuration
pub mod DateDuration
pub mod Datetime
mod Tests
