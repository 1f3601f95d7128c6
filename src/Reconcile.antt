-- ===== src/Reconcile.antt =====
-- profile/packages/reconcile/src/index.mjs: the block that a call leaves, and the verdict on the
-- blocks that were read since its first send.
pub mod Icrc3
pub mod Expected
pub mod Match
pub mod Verdict
pub mod Scan
pub mod Safety
pub mod Answers
pub mod Order
pub mod Fields
pub mod Unique
pub mod Lookalike
pub mod Shape
pub mod Tests
