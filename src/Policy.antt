-- ===== src/Policy.antt =====
-- src/policy: the rules and the engine that evaluates them.
pub mod Types
pub mod Engine
