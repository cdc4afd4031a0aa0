-- ===== src/Workspace.antt =====
-- webapp/src/components/map/mapWorkspaceCommands.ts and useMapWorkspaceCommands.ts: the commands
-- that change the layers of the map, their validation and their effect on the state.
pub mod Layer
pub mod Style
pub mod Camera
pub mod State
pub mod Order
pub mod Styling
pub mod Invariant
pub mod Steps
pub mod Removal
pub mod Commands
