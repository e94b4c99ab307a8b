-- ===== src/McpServer.antt =====
-- packages/mcp-server: the registry of tools and the state of requests in several rounds.
pub mod ToolRegistry
pub mod RequestState
mod Samples
