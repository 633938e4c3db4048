-- ===== src/Tools.antt =====
-- backend/app/tools: the registry, its audit records and the tools.
pub mod Contracts
pub mod Records
pub mod Schema
pub mod Registry
pub mod Execution
pub mod Calculator
pub mod Sql
mod Tests
