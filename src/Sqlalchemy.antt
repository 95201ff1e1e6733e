-- ===== src/Sqlalchemy.antt =====
-- src/dewey/sqlalchemy: the ledger operations over SQLAlchemy.
pub mod Dispatch
pub mod Sweep
pub mod Executor
pub mod AsyncExecutor
pub mod AsyncSweep
pub mod AsyncBackend
pub mod AsyncQueries
pub mod Queries
pub mod System
pub mod Heartbeats
