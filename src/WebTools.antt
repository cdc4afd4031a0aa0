-- ===== src/WebTools.antt =====
-- webapp/src/lib/webmcp: the tools that the site offers to an agent.
pub mod Bounded
pub mod Versions
pub mod Query
pub mod Shapes
