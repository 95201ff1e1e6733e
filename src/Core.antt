-- ===== src/Core.antt =====
-- src/dewey/core: the framework-agnostic rules.
pub mod States
pub mod Types
pub mod Errors
pub mod Validation
pub mod Execution
pub mod Heartbeat
