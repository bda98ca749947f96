-- ===== src/Tests.antt =====
-- Examples of the operations of src/ on concrete inputs.
pub mod Data
mod Times
mod Keys
mod Reads
mod Writes
mod Locks
mod Requests
mod Oracle
mod Trees
mod Latches
mod Sequencing
mod Nodes
mod Waits
mod Ending
mod Database
