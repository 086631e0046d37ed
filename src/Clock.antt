-- ===== src/Clock.antt =====
-- The utilities of message_transport_util: `TimestampSync`, `now`, `sleep` and the short time string.
pub mod Time
pub mod Sync
pub mod Windows
pub mod Strings
mod Outliers
mod Tests
