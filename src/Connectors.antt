-- ===== src/Connectors.antt =====
-- apps/weldall/src/server/connectors: who may use a connection.
pub mod Access
mod Tests
