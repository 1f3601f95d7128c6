-- ===== src/Format.antt =====
-- profile/packages/format/src: text and values of the tagged arguments.
pub mod Errors
pub mod Chars
pub mod Decimal
pub mod Util
pub mod Amount
pub mod Formatter
pub mod Bytes
pub mod Principal
pub mod Tests
pub mod Blob
pub mod Split
pub mod Account
pub mod Subaccount
pub mod Time
pub mod Names
