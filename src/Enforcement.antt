-- ===== src/Enforcement.antt =====
-- src/enforcement: the two-stage pipeline and the dispatch of approvals around it.
pub mod Types
pub mod Stage1
pub mod Stage2
pub mod Pipeline
pub mod Dispatch
