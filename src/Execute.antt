-- ===== src/Execute.antt =====
-- src/execute: the requests and their execution.
pub mod Span
pub mod Executor
pub mod Request
pub mod Server
pub mod Retry
