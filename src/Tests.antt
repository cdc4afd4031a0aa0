-- ===== src/Tests.antt =====
-- Runs of the theorems at concrete inputs, over an engine whose numbers are thousandths.
mod Engine
mod DiffRuns
mod SelectionRuns
mod WorkspaceRuns
mod CommandRuns
mod CatalogRuns
mod HighlightRuns
mod LinkCodec
mod DatasetRuns
mod McpRuns
mod TreeRuns
mod SiteRuns
mod CursorRuns
mod WebToolRuns
mod TileRuns
mod ShapeRuns
