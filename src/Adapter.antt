-- ===== src/Adapter.antt =====
-- src/adapter/file-adapter.ts: `FileAuthorityAdapter`.
pub mod Capabilities
pub mod Bundles
