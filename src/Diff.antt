-- ===== src/Diff.antt =====
-- webapp/src/components/map/featureDiff.ts: two versions of a dataset file, compared feature by
-- feature.
pub mod Model
pub mod Versions
pub mod Similarity
pub mod Scoring
pub mod Cells
pub mod Matching
pub mod Build
