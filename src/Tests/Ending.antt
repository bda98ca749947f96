-- ===== src/Tests/Ending.antt =====
-- Commits and aborts.
use little_key_value_db.Prelude.{◌≡◌, refl, inl, ◌⊎◌, true, false, [], ◌∷◌, some, done, All, arith}
use little_key_value_db.Storage.Bytes.{bytes_eq, is_utf8, utf8_continues, utf8_lead}
use little_key_value_db.Storage.Key.{create_intent_key, to_string, encode_mvcc_key}
use little_key_value_db.Storage.Txn.{Txn, TransactionStatus, pending, committed, aborted}
use little_key_value_db.Storage.Iterator.Seek.{raws}
use little_key_value_db.Storage.Store
use little_key_value_db.Storage.Store.{find, get_serialized_with_mvcc_key, get_serialized}
use little_key_value_db.Storage.Store.Memory.{memory, MemoryDb}
use little_key_value_db.Storage.Mvcc.{get_transaction_record, get_uncommitted_value, record_of}
use little_key_value_db.LockTable.Guard
use little_key_value_db.LockTable.State.{lock_is_free, wake_all}
use little_key_value_db.LockTable.Guard.{Heap, set_txn}
use little_key_value_db.LockTable.Table.{update_locks, state_or_new, get_lock_state}
use little_key_value_db.Concurrency.{update_txn_locks}
use little_key_value_db.TxnWait.{finalize_txn}
use little_key_value_db.Execute.Request.{
  ok_response, err_response, commit_txn, abort_txn, txn_aborted_error,
}
use little_key_value_db.Execute.Request.Puts.{held_by}
use little_key_value_db.Execute.Executor.{refresh_keys}
use little_key_value_db.Execute.Server.{Server, execute_abort_txn, execute_commit_txn}
use little_key_value_db.Execute.Server.Resolve.{IsNamed, IsReadable, IsGone, IsResolved}
use little_key_value_db.Execute.Server.Ending.{has_status}
use little_key_value_db.Execute.Server.Ending.Commit.{
  execute_commit_txn_lem, execute_commit_txn_refused,
}
use little_key_value_db.Execute.Server.Ending.Abort.{execute_abort_txn_lem}
use little_key_value_db.Oracle.Cache
use little_key_value_db.Tests.Data.{
  banana, time, transaction, uncommitted, values, records, uuid_to_string,
}

-- The transaction 7 has written `banana`.
abbrev writer : Txn
writer = record (transaction 7 9) { lock_spans = banana ∷ [] }

abbrev heap : Heap
heap = record { guards = λ n. Guard.new n false [] n; txns = λ n. writer }

abbrev db_with : TransactionStatus → MemoryDb
db_with status = record {
  versions = raws ((create_intent_key banana, values.to_json (uncommitted 7 9 (5 ∷ []))) ∷ []);
  records = (7 ∷ [], records.to_json (record_of status 7 (time 8))) ∷ [];
}

abbrev server_with : TransactionStatus → Server memory
server_with status = record {
  db = db_with status;
  heap = heap;
  locks = (banana, held_by writer (state_or_new banana [])) ∷ [];
  waits = record {
    pushees = [];
    pushes = λ p. record { dependents = []; txn_id = 0; messages = 0 };
  };
  oracle = Cache.new;
}

banana-IsNamed : IsNamed (time 9) banana
unfolding to_string encode_mvcc_key is_utf8 utf8_continues utf8_lead
banana-IsNamed = (_, _, refl, refl)

banana-IsReadable : IsReadable memory values (db_with pending) banana
unfolding get_uncommitted_value get_serialized_with_mvcc_key get_serialized find bytes_eq to_string
    encode_mvcc_key is_utf8 utf8_continues utf8_lead
banana-IsReadable = (_, refl)

execute_commit_txn_lem_example :
    (s' : Server memory) × (execute_commit_txn memory values records uuid_to_string 7
        (server_with pending)
      ≡ done (s', ok_response (commit_txn (time 9))))
    × (get_transaction_record memory values records uuid_to_string 7 s'.db
        ≡ done (some (record_of committed 7 (time 9))))
    × All (IsResolved memory values 7 s'.db) (banana ∷ [])
    × (s'.oracle ≡ Cache.new)
unfolding get_transaction_record Store.get_transaction_record find bytes_eq has_status refresh_keys
    update_txn_locks finalize_txn update_locks get_lock_state lock_is_free wake_all
execute_commit_txn_lem_example =
    execute_commit_txn_lem memory values records uuid_to_string 7 (server_with pending)
      (some (record_of pending 7 (time 8))) _ _ refl refl refl (ground arith) (omega arith)
      (banana-IsNamed, tt) (banana-IsReadable, tt) refl refl

execute_commit_txn_refused_example :
    (s' : Server memory) × (execute_commit_txn memory values records uuid_to_string 7
        (server_with aborted)
      ≡ done (s', err_response txn_aborted_error))
    × (s'.db ≡ db_with aborted)
    × (s'.waits ≡ (server_with aborted).waits)
    × (s'.oracle ≡ Cache.new)
unfolding get_transaction_record Store.get_transaction_record find bytes_eq has_status
    update_txn_locks update_locks get_lock_state lock_is_free wake_all
execute_commit_txn_refused_example =
    execute_commit_txn_refused memory values records uuid_to_string 7 (server_with aborted)
      (some (record_of aborted 7 (time 8))) _ refl (inl (refl, refl))

execute_abort_txn_lem_example :
    (s' : Server memory) × (execute_abort_txn memory values records uuid_to_string 7
        (server_with pending)
      ≡ done (s', ok_response abort_txn))
    × (((has_status committed (some (record_of pending 7 (time 8))) ≡ true)
          × (s' ≡ server_with pending))
        ⊎ ((has_status committed (some (record_of pending 7 (time 8))) ≡ false)
            × (get_transaction_record memory values records uuid_to_string 7 s'.db
                ≡ done (some (record_of aborted 7 (time 9))))
            × All (IsGone memory values s'.db) (banana ∷ [])))
unfolding get_transaction_record Store.get_transaction_record find bytes_eq update_txn_locks
    finalize_txn update_locks get_lock_state lock_is_free wake_all
execute_abort_txn_lem_example =
    execute_abort_txn_lem memory values records uuid_to_string 7 (server_with pending)
      (some (record_of pending 7 (time 8))) _ _ refl (banana-IsNamed, tt) refl refl
