-- ===== src/Hlc.antt =====
-- src/hlc: hybrid logical timestamps, the wall clock they read, and the clock that issues them.
pub mod Timestamp
pub mod WallClock
pub mod Clock
