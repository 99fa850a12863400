-- ===== src/Types.antt =====
-- frontend/src/types: the data contracts of the console.
pub mod Core
pub mod Agents
pub mod Api
pub mod AttackSurface
pub mod FindingsTrace
pub mod Findings
pub mod Settings
