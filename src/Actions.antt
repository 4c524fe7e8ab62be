-- ===== src/Actions.antt =====
-- The classification of tool calls.
pub mod Types
pub mod Registry
pub mod Normalize
pub mod Gate
