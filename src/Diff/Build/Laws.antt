-- ===== src/Diff/Build/Laws.antt =====
-- What a comparison reports.
pub mod Versions
pub mod Summary
