-- ===== src/Resolver.antt =====
-- profile/packages/resolver/src: structural subtyping over type graphs.
pub mod Address
pub mod Template
pub mod Graph
pub mod Checker
pub mod Parts
pub mod Rules
pub mod Met
pub mod Subtype
pub mod Kinds
pub mod Service
pub mod Walk
pub mod Show
pub mod Tests
