-- ===== src/Budget.antt =====
-- The daily budget of tokens (src/budget).
pub mod Pricing
pub mod Tracker
pub mod Hook
