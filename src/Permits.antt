-- ===== src/Permits.antt =====
-- src/auto-permits: patterns derived from approved commands, and how they match later commands.
pub mod Words
pub mod Tokens
pub mod Regexp
pub mod Pattern
pub mod Covers
pub mod Checker
pub mod Store
