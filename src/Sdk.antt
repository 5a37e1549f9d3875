-- ===== src/Sdk.antt =====
-- packages/sdk/src: what resource servers build on.
pub mod Replay
pub mod McpJson
mod Tests
