-- ===== src/McpApp.antt =====
-- dataset-mcp/ui/src/mcp/useMcpApp.ts: the map of a tool result, whose query tokens expire and whose
-- layers are prepared one by one, while results, answers and errors come in any order.
pub mod Model
pub mod Handlers
pub mod Prepare
pub mod Events
pub mod Tokens
pub mod Late
pub mod Tiles
