-- ===== src/Referee.antt =====
-- src/lock-referee-server.c, the server that keeps the threads waiting for locks shared between processes
-- on Windows: its array of locks and their queues.
pub mod Types
pub mod Search
pub mod Array
pub mod Waiters
pub mod Timeouts
pub mod Server
mod Examples
