-- ===== src/Django.antt =====
-- src/dewey/django: the ledger operations over Django's ORM. Where a call takes `using`, the model's
-- database is the one of that alias. The tests on a row and the values an update sets are those of
-- dewey.Sqlalchemy; each operation is written out as its own source has it.
pub mod Dispatch
pub mod Sweep
pub mod Executor
pub mod Queries
pub mod System
pub mod Heartbeats
pub mod Settings
pub mod Command
