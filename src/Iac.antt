-- ===== src/Iac.antt =====
-- apps/weldall/src/server/iac: declarative configuration, from manifest to ordered plan.
pub mod Json
pub mod Contracts
pub mod Desired
pub mod Order
pub mod Graph
pub mod Decision
pub mod Document
pub mod Sweep
pub mod Planner
pub mod Rows
pub mod Loading
pub mod Service
mod Tests
