-- ===== src/Concurrency.antt =====
-- `update_txn_locks` of src/concurrency/concurrency_manager.rs.
pub mod Wait
pub mod Sequence
use little_key_value_db.Prelude.{List, [], ◌∷◌, Outcome, done, ◌>>=◌}
use little_key_value_db.Storage.Bytes.{Key}
use little_key_value_db.LockTable.Guard.{Heap, TxnLink}
use little_key_value_db.LockTable.Table.{Locks, UpdateLock, update_locks}

unfoldable pub update_key_locks : List Key → UpdateLock → Heap → Locks → Outcome (Heap × Locks)
update_key_locks [] update_lock h locks = done (h, locks)
update_key_locks (key ∷ keys) update_lock h locks = do
  updated ← update_locks key update_lock h locks
  update_key_locks keys update_lock updated.0 updated.1

unfoldable pub update_txn_locks : TxnLink → UpdateLock → Heap → Locks → Outcome (Heap × Locks)
unfolding update_key_locks
update_txn_locks txn update_lock h locks =
    update_key_locks (h.txns txn).lock_spans update_lock h locks
