-- ===== src/LockTable.antt =====
-- src/lock_table/lock_table.rs: the guards of requests, the state of one key's lock, and the table of
-- all locks.
pub mod Guard
pub mod State
pub mod Table
