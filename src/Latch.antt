-- ===== src/Latch.antt =====
-- src/latch_manager: the B-tree of the keys that are latched, and the manager that latches the spans
-- of a request.
pub mod Node
pub mod Tree
pub mod Manager
