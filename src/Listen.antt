-- ===== src/Listen.antt =====
-- LISTEN and NOTIFY: src/dewey/listen_sync.py, the payloads and the asyncio listener of
-- src/dewey/sqlalchemy/listen.py, and `wait_for_work` of the three backends.
pub mod Payload
pub mod Channel
pub mod Sync
pub mod Async
pub mod Waiting
