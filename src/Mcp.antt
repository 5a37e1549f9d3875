-- ===== src/Mcp.antt =====
-- apps/weldall/src/server/mcp: the broker's side of upstream MCP servers.
pub mod ToolCache
