-- ===== src/Selection.antt =====
-- webapp/src/components/map/featureSelection.ts: what a click or a box on the map selects.
pub mod Features
pub mod Geometry
pub mod Normalize
pub mod Update
pub use Features.*
pub use Normalize.*
pub use Update.*
