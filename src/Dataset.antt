-- ===== src/Dataset.antt =====
-- webapp/src/components/dataset and webapp/src/components/map/sourceDescriptors.ts: the sources of a
-- dataset file, and which of them a view takes.
pub mod Sources
pub mod Urls
pub mod ParquetPreview
pub mod GeoparquetTree
pub mod Best
pub mod Compare
pub mod Schema
pub mod Descriptors
