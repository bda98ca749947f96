-- ===== src/Lib.antt =====
-- A key-value database with serializable transactions: src/ of the repository.
--
-- The program keeps several versions of each key in RocksDB. A version is stored under a key that
-- encodes the user's key and a hybrid logical timestamp (src/hlc, src/storage/mvcc_key.rs), and a
-- comparator (src/storage/storage.rs) lists the versions of a key from the latest to the earliest.
-- A running transaction writes an intent, which is stored under the timestamp zero and comes first
-- (src/storage/mvcc.rs); committing replaces it by a version. A read scans from the intent of its
-- key (src/storage/mvcc_scanner.rs) with an iterator (src/storage/mvcc_iterator.rs). The lock table
-- (src/lock_table/lock_table.rs) makes transactions wait for one another.
--
-- Files:
-- - Hlc/Timestamp, Hlc/WallClock, Hlc/Clock: src/hlc. A word of w bits is a natural number, and the
--   arithmetic wraps (`% 2 ^ w`), as in a release build.
-- - Storage/Bytes: what the code takes from Rust's standard library about byte vectors.
-- - Storage/Key: src/storage/mvcc_key.rs. Storage/Txn: src/storage/txn.rs.
-- - Storage/Store: src/storage/storage.rs. RocksDB and serde_json are the parameters `Engine` and
--   `Serde`, whose fields state what the code relies on: a read sees the last write, and what is
--   serialised reads back. Their errors are left out. Storage/Store/Memory is an engine in memory.
-- - Storage/Iterator, Storage/Scanner, Storage/Mvcc: src/storage/mvcc_iterator.rs, mvcc_scanner.rs
--   and mvcc.rs, with the source's method names.
-- - LockTable/Guard, LockTable/State, LockTable/Table: the structs LockTableGuard, LockState and
--   LockTable of src/lock_table/lock_table.rs. Guards and transactions are shared objects, so
--   `Heap` holds them by address.
-- - RbTree: the vector of nodes of src/llrb/llrb.rs with its links, and its rotations; RbTree/Insert is
--   its insertion, and RbTree/Keys its listings and assertions. RbTree/Shape gives the inductive tree
--   that a vector of nodes stands for.
-- - Oracle: the overlap test of src/interval/interval_tree.rs and the maximum of
--   src/timestamp_oracle/oracle.rs; Oracle/Interval is the search of the interval tree over the
--   red-black tree, and Oracle/Cache the oracle over the interval tree.
-- - TxnWait: src/txn_wait/txn_wait_queue.rs. A waiting push is a shared object, so the queue holds them
--   by address. Waiting is a function of the messages that arrive.
-- - Concurrency: src/concurrency/concurrency_manager.rs: the update of a transaction's locks, and in
--   Concurrency/Sequence the sequencing and the finishing of a request. Concurrency/Wait is `wait_for`
--   of src/lock_table/lock_table.rs. The loop of a sequencing runs on a list of rounds, each of which
--   says how its waits end and, as a function on the shared state, what other calls do meanwhile.
-- - Execute/Span, Execute/Request: the spans of all requests and the execution of begin, get and put
--   of src/execute/request.rs. Execute/Executor: the methods of src/execute/executor.rs on the store.
-- - Execute/Server: the state of the executor with the lock table, the waits and the oracle; commit,
--   abort and the choice between the requests of src/execute/request.rs; and one attempt of a write or
--   a read of src/execute/executor.rs, which asks and feeds the oracle.
-- - Execute/Retry: the retry loop of src/execute/executor.rs, on a list of attempts.
-- - Db: the clock and the map of transactions of src/db/db.rs. Db/Requests: the calls that pass a request
--   on to the executor, and the loop of `run_txn`, on a list of runs.
-- - Latch/Node: the nodes of src/latch_manager/latch_interval_btree.rs, with Latch/Node/Internal and
--   Latch/Node/Leaf for what an internal node and a leaf do with a sibling and their parent.
--   Latch/Tree holds the nodes by address, Latch/Tree/Insert and Latch/Tree/Delete are the methods of
--   BTree, and Latch/Manager is src/latch_manager/latch_manager.rs: a call that waits is a function of
--   the messages and timeouts that it meets. A node that locks itself is `unfinished`.
-- - Prelude: library names and shared lemmas. Tests: concrete inputs.
--
-- A panic is the outcome `panicked`, and a wait for a full channel `unfinished` (Prelude/Fallible).
-- The loop of a scan runs on fuel: the number of pairs to come and two more. Each round takes at
-- least one pair or ends the iterator, so it is enough, on every store and range
-- (Storage/Scanner/Finish).
-- The search of the interval tree runs on as much fuel as the tree has nodes and one more, which
-- is more than its height (Oracle/Interval/Overlap). So do the listings of its keys
-- (RbTree/Keys/Listing) and the walk of the red-black tree's insertion (RbTree/Insert/Walk), and
-- the loop that restores the colours runs on the same fuel: it goes up the tree.
-- The insertion and the deletion of the latch tree go down one level a round and run on as much fuel
-- as there are nodes and one more. Latching a request's spans starts again after a timeout only, so
-- it runs on one round more than there are events.
-- All other loops are structural.
--
-- A loop that waits for others runs on the list of what it meets, and is `unfinished` at its end.
--
-- Not modelled: the locks of the nodes of the latch tree, and calls on it that run at once; what others
-- do while the latches of a request are awaited; the timer and the channels of `wait_for` and of the task
-- that asks for dependents, and the abort that a deadlock sends to the request queue; methods that print,
-- and most that only tests call; the runtime, gRPC and the build script.
pub mod Prelude
pub mod Hlc
pub mod Storage
pub mod LockTable
pub mod Concurrency
pub mod Db
pub mod Execute
pub mod Latch
pub mod Oracle
pub mod RbTree
pub mod TxnWait
pub mod Tests
