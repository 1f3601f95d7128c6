-- ===== src/Format/Time.antt =====
-- profile/packages/format/src/time.mjs: the units of timestamps and durations.
pub mod Units
pub mod Civil
pub mod Rfc3339
pub mod Duration
pub mod Tags
pub mod Exact
pub mod Floor
pub mod Tests
pub mod TagTests
