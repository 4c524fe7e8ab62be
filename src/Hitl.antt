-- ===== src/Hitl.antt =====
-- src/hitl: which actions need a human's approval, and the approvals themselves.
pub mod Types
pub mod Matcher
pub mod Approvals
pub mod Retry
