-- ===== src/Rules.antt =====
-- src/rules: the rules, how they match, how often they apply, and the store that holds them.
pub mod Types
pub mod Matcher
pub mod Consume
pub mod Store
pub mod Evaluate
pub mod Validate
pub mod Tests
