-- ===== src/Plugin.antt =====
-- src/index.ts: how the plugin puts the parts together.
pub mod Stored
pub mod Approve
