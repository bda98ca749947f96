-- ===== src/Execute/Server/Ending/Abort.antt =====
-- How `AbortTxnRequest::execute` of src/execute/request.rs ends.
use little_key_value_db.Prelude.{
  ◌≡◌, refl, ◌∙◌, ◌⊎◌, inl, inr, true, false, Option, none, some, done, ◌>>=◌, All, arith,
  Bool-cases,
}
use little_key_value_db.Storage.Bytes.{Bytes}
use little_key_value_db.Storage.Txn.{Uuid, Txn, TxnRecord, UncommittedValue, committed, aborted}
use little_key_value_db.Storage.Store.{Engine, Serde}
use little_key_value_db.Storage.Mvcc.{record_of, update_transaction_record_to_abort}
use little_key_value_db.LockTable.Guard.{Heap, TxnLink}
use little_key_value_db.LockTable.Table.{Locks, abort}
use little_key_value_db.Concurrency.{update_txn_locks}
use little_key_value_db.TxnWait.{TxnWaitQueue, finalize_txn}
use little_key_value_db.Execute.Request.{ok_response, abort_txn}
use little_key_value_db.Execute.Server.{Server, delete_intents, finish_abort, execute_abort_txn}
use little_key_value_db.Execute.Server.Resolve.{IsNamed, IsGone}
use little_key_value_db.Execute.Server.Resolve.Loops.{delete_intents_lem}
use little_key_value_db.Execute.Server.Ending.{has_status, record_in, same_record, aborted_record}

module _ (e : Engine) (values : Serde UncommittedValue) (records : Serde TxnRecord)
    (uuid_to_string : Uuid → Bytes) where
  open e use {Db, get_cf, put_cf, get-put}

  abort_enters :
      (txn : TxnLink) (s : Server e) (found : Option TxnRecord)
      → record_in e values records uuid_to_string (s.heap.txns txn).txn_id s.db ≡ done found
      → has_status committed found ≡ false
      → execute_abort_txn e values records uuid_to_string txn s
        ≡ finish_abort e values records uuid_to_string txn s
  unfolding execute_abort_txn has_status
  abort_enters txn s none g n = rw (g, ◌>>=◌) refl
  abort_enters txn s (some r) g n = rw (g, ◌>>=◌) (ground arith)

  abort_of_committed :
      (txn : TxnLink) (s : Server e) (found : Option TxnRecord)
      → record_in e values records uuid_to_string (s.heap.txns txn).txn_id s.db ≡ done found
      → has_status committed found ≡ true
      → execute_abort_txn e values records uuid_to_string txn s ≡ done (s, ok_response abort_txn)
  unfolding execute_abort_txn has_status
  abort_of_committed txn s none g c = ground arith
  abort_of_committed txn s (some r) g c = rw (g, ◌>>=◌) (ground arith)

  finish_abort-run :
      (txn : TxnLink) (s : Server e) (deleted : Db) (updated : Heap × Locks) (waits : TxnWaitQueue)
      → delete_intents e values records uuid_to_string (s.heap.txns txn).lock_spans (
          update_transaction_record_to_abort e values records uuid_to_string
            (s.heap.txns txn).txn_id
            (s.heap.txns txn).write_timestamp
            s.db)
        ≡ done deleted
      → update_txn_locks txn (abort (s.heap.txns txn).txn_id) s.heap s.locks ≡ done updated
      → finalize_txn (s.heap.txns txn).txn_id s.waits ≡ done waits
      → finish_abort e values records uuid_to_string txn s
        ≡ done (
          record s { db = deleted; heap = updated.0; locks = updated.1; waits = waits },
          ok_response abort_txn,
        )
  unfolding finish_abort
  finish_abort-run txn s deleted updated waits run upd fin = rw (run, ◌>>=◌, upd, fin) refl

  -- An abort always succeeds: a transaction that is committed is left as it is with the whole state,
  -- and any other has an aborted record afterwards and no intent on the keys that it wrote. The names
  -- of the intents are valid, and the updates of the locks and of the waiting transactions do not
  -- panic.
  pub execute_abort_txn_lem :
      (txn : TxnLink) (s : Server e) (found : Option TxnRecord) (updated : Heap × Locks)
      (waits : TxnWaitQueue)
      → record_in e values records uuid_to_string (s.heap.txns txn).txn_id s.db ≡ done found
      → All (IsNamed (s.heap.txns txn).write_timestamp) (s.heap.txns txn).lock_spans
      → update_txn_locks txn (abort (s.heap.txns txn).txn_id) s.heap s.locks ≡ done updated
      → finalize_txn (s.heap.txns txn).txn_id s.waits ≡ done waits
      → (s' : Server e) × (execute_abort_txn e values records uuid_to_string txn s
          ≡ done (s', ok_response abort_txn))
        × (((has_status committed found ≡ true) × (s' ≡ s))
            ⊎ ((has_status committed found ≡ false)
                × (record_in e values records uuid_to_string (s.heap.txns txn).txn_id s'.db
                    ≡ done (
                        some (
                          record_of aborted
                            (s.heap.txns txn).txn_id
                            (s.heap.txns txn).write_timestamp)))
                × All (IsGone e values s'.db) (s.heap.txns txn).lock_spans))
  execute_abort_txn_lem txn s found updated waits g names upd fin =
      let t : Txn = s.heap.txns txn in
      let written =
        update_transaction_record_to_abort e values records uuid_to_string t.txn_id
          t.write_timestamp s.db in
      let (db', run, gone, removes) =
        delete_intents_lem e values records uuid_to_string t.lock_spans t.write_timestamp written
          names in
      elim (Bool-cases (has_status committed found)) [
        | inl c ↦ (s, abort_of_committed txn s found g c, inl (c, refl))
        | inr n ↦ (
          record s { db = db'; heap = updated.0; locks = updated.1; waits = waits },
          abort_enters txn s found g n ∙ finish_abort-run txn s db' updated waits run upd fin,
          inr (
            n,
            same_record e values records uuid_to_string t.txn_id written db' removes
                ∙ aborted_record e values records uuid_to_string t.txn_id t.write_timestamp s.db,
            gone,
          ),
        )
      ]
