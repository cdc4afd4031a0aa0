-- ===== src/Highlights.antt =====
-- dataset-mcp/ui/src/components/mapSelection.ts and mcp/highlightContext.ts: the features that a user
-- highlights on a query map, and the text about them that goes to the model.
pub mod Hidden
pub mod Fragment
pub mod Features
pub mod Laws
pub mod Context
