-- ===== src/Execute/Server/Ending/Commit.antt =====
-- How `CommitTxnRequest::execute` of src/execute/request.rs ends.
use little_key_value_db.Prelude.{
  ◌≡◌, refl, ◌∙◌, ◌⊎◌, inl, inr, true, false, Option, none, some, done, ◌>>=◌, All, arith, ==_iff,
  if◌then◌else◌,
}
use little_key_value_db.Hlc.Timestamp.{IsWord, IsVersion}
use little_key_value_db.Storage.Bytes.{Bytes}
use little_key_value_db.Storage.Txn.{Uuid, Txn, TxnRecord, UncommittedValue, committed, aborted}
use little_key_value_db.Storage.Store.{
  Engine, Serde, put_serialized, put_raw, put_transaction_record as write_record,
}
use little_key_value_db.Storage.Mvcc.{put_transaction_record, record_of, commit_transaction_record}
use little_key_value_db.LockTable.Guard.{Heap, TxnLink, set_txn}
use little_key_value_db.LockTable.Table.{Locks, commit, abort}
use little_key_value_db.Concurrency.{update_txn_locks}
use little_key_value_db.TxnWait.{TxnWaitQueue, finalize_txn}
use little_key_value_db.Execute.Executor.{
  refresh_keys, refresh_read_timestamp, resolve_keys, resolve_intents_for_txn,
}
use little_key_value_db.Execute.Request.{
  ok_response, err_response, commit_txn, txn_aborted_error, read_refresh_error,
}
use little_key_value_db.Execute.Server.{
  Server, finish_commit, commit_of_aborted, execute_commit_txn,
}
use little_key_value_db.Execute.Server.Resolve.{
  IsNamed, IsReadable, IsResolved, IsReadable-after_record,
}
use little_key_value_db.Execute.Server.Resolve.Loops.{resolve_keys_lem}
use little_key_value_db.Execute.Server.Ending.{has_status, record_in, same_record, committed_record}

module _ (e : Engine) (values : Serde UncommittedValue) (records : Serde TxnRecord)
    (uuid_to_string : Uuid → Bytes) where
  open e use {Db, get_cf, put_cf, get-put}

  -- The state and the response of `finish_commit` where the refresh succeeds, from what its steps
  -- return.
  finish_commit-run :
      (txn : TxnLink) (s : Server e) (resolved : Db) (updated : Heap × Locks) (waits : TxnWaitQueue)
      → refresh_keys e values (s.heap.txns txn).read_set (s.heap.txns txn) s.db ≡ done true
      → resolve_keys e values (s.heap.txns txn).lock_spans (s.heap.txns txn) (
          commit_transaction_record e values records uuid_to_string
            (s.heap.txns txn).txn_id
            (s.heap.txns txn).write_timestamp
            s.db)
        ≡ done resolved
      → update_txn_locks txn
          (commit (s.heap.txns txn).txn_id (s.heap.txns txn).write_timestamp)
          (set_txn txn (s.heap.txns txn) s.heap)
          s.locks
        ≡ done updated
      → finalize_txn (s.heap.txns txn).txn_id s.waits ≡ done waits
      → finish_commit e values records uuid_to_string txn
          (s.heap.txns txn).txn_id
          (s.heap.txns txn).write_timestamp
          s
        ≡ done (
          record s { db = resolved; heap = updated.0; locks = updated.1; waits = waits },
          ok_response (commit_txn (s.heap.txns txn).write_timestamp),
        )
  unfolding finish_commit refresh_read_timestamp resolve_intents_for_txn
  finish_commit-run txn s resolved updated waits fresh res upd fin =
      rw (fresh, ◌>>=◌, (==_iff txn txn).1 refl, resolve_intents_for_txn, res, upd, fin) refl

  commit_enters :
      (txn : TxnLink) (s : Server e) (found : Option TxnRecord)
      → record_in e values records uuid_to_string (s.heap.txns txn).txn_id s.db ≡ done found
      → has_status aborted found ≡ false
      → execute_commit_txn e values records uuid_to_string txn s
        ≡ finish_commit e values records uuid_to_string txn
            (s.heap.txns txn).txn_id
            (s.heap.txns txn).write_timestamp
            s
  unfolding execute_commit_txn has_status
  commit_enters txn s none g n = rw (g, ◌>>=◌) refl
  commit_enters txn s (some r) g n = rw (g, ◌>>=◌) (ground arith)

  -- A commit of a transaction that is not aborted, and for whose read set `refresh_keys` answers true,
  -- succeeds: its record is committed at its write timestamp, none of the keys that it wrote keeps an
  -- intent of it, and the oracle is as it was. The intents on those keys read, the names of the intents
  -- and of the versions are valid, the write timestamp is no intent timestamp and fits its words, and
  -- the updates of the locks and of the waiting transactions do not panic.
  pub execute_commit_txn_lem :
      (txn : TxnLink) (s : Server e) (found : Option TxnRecord) (updated : Heap × Locks)
      (waits : TxnWaitQueue)
      → record_in e values records uuid_to_string (s.heap.txns txn).txn_id s.db ≡ done found
      → has_status aborted found ≡ false
      → refresh_keys e values (s.heap.txns txn).read_set (s.heap.txns txn) s.db ≡ done true
      → IsVersion (s.heap.txns txn).write_timestamp
      → IsWord (s.heap.txns txn).write_timestamp
      → All (IsNamed (s.heap.txns txn).write_timestamp) (s.heap.txns txn).lock_spans
      → All (IsReadable e values s.db) (s.heap.txns txn).lock_spans
      → update_txn_locks txn
          (commit (s.heap.txns txn).txn_id (s.heap.txns txn).write_timestamp)
          (set_txn txn (s.heap.txns txn) s.heap)
          s.locks
        ≡ done updated
      → finalize_txn (s.heap.txns txn).txn_id s.waits ≡ done waits
      → (s' : Server e) × (execute_commit_txn e values records uuid_to_string txn s
          ≡ done (s', ok_response (commit_txn (s.heap.txns txn).write_timestamp)))
        × (record_in e values records uuid_to_string (s.heap.txns txn).txn_id s'.db
            ≡ done (
                some
                  (record_of committed (s.heap.txns txn).txn_id (s.heap.txns txn).write_timestamp)))
        × All (IsResolved e values (s.heap.txns txn).txn_id s'.db) (s.heap.txns txn).lock_spans
        × (s'.oracle ≡ s.oracle)
  unfolding commit_transaction_record put_transaction_record write_record put_serialized put_raw
  execute_commit_txn_lem txn s found updated waits g n fresh v w names readable upd fin =
      let t : Txn = s.heap.txns txn in
      let written =
        commit_transaction_record e values records uuid_to_string t.txn_id t.write_timestamp s.db in
      let (db', run, resolved, removes) =
        resolve_keys_lem e values t.lock_spans t written v w names (
          IsReadable-after_record e values t.write_timestamp t.lock_spans (uuid_to_string t.txn_id)
            (records.to_json (record_of committed t.txn_id t.write_timestamp)) s.db names
            readable) in
      (
        record s { db = db'; heap = updated.0; locks = updated.1; waits = waits },
        commit_enters txn s found g n ∙ finish_commit-run txn s db' updated waits fresh run upd fin,
        same_record e values records uuid_to_string t.txn_id written db' removes
            ∙ committed_record e values records uuid_to_string t.txn_id t.write_timestamp s.db,
        resolved,
        refl,
      )

  commit_of_aborted-run :
      (txn : TxnLink) (s : Server e) (updated : Heap × Locks)
      → update_txn_locks txn (abort (s.heap.txns txn).txn_id) s.heap s.locks ≡ done updated
      → commit_of_aborted e values records uuid_to_string txn s
        ≡ done (record s { heap = updated.0; locks = updated.1 }, err_response txn_aborted_error)
  unfolding commit_of_aborted
  commit_of_aborted-run txn s updated upd = rw (upd, ◌>>=◌) refl

  refused_run :
      (txn : TxnLink) (s : Server e) (found : Option TxnRecord) (updated : Heap × Locks)
      → record_in e values records uuid_to_string (s.heap.txns txn).txn_id s.db ≡ done found
      → has_status aborted found ≡ true
      → update_txn_locks txn (abort (s.heap.txns txn).txn_id) s.heap s.locks ≡ done updated
      → execute_commit_txn e values records uuid_to_string txn s
        ≡ done (record s { heap = updated.0; locks = updated.1 }, err_response txn_aborted_error)
  unfolding execute_commit_txn has_status
  refused_run txn s none updated g a upd = ground arith
  refused_run txn s (some r) updated g a upd =
      rw (g, ◌>>=◌) (ground (arith, commit_of_aborted-run txn s updated upd))

  -- A commit is refused with an error that says why, and leaves the store, the waiting transactions and
  -- the oracle as they are, where the transaction is aborted and the update of its locks does not panic,
  -- and where it is not aborted and `refresh_keys` answers false for its read set.
  pub execute_commit_txn_refused :
      (txn : TxnLink) (s : Server e) (found : Option TxnRecord) (updated : Heap × Locks)
      → record_in e values records uuid_to_string (s.heap.txns txn).txn_id s.db ≡ done found
      → ((has_status aborted found ≡ true)
          × (update_txn_locks txn (abort (s.heap.txns txn).txn_id) s.heap s.locks ≡ done updated))
        ⊎ ((has_status aborted found ≡ false)
            × (refresh_keys e values (s.heap.txns txn).read_set (s.heap.txns txn) s.db
                ≡ done false))
      → (s' : Server e) × (execute_commit_txn e values records uuid_to_string txn s
          ≡ done (
            s',
            err_response
                (if has_status aborted found then txn_aborted_error else read_refresh_error),
          ))
        × (s'.db ≡ s.db)
        × (s'.waits ≡ s.waits)
        × (s'.oracle ≡ s.oracle)
  unfolding finish_commit refresh_read_timestamp
  execute_commit_txn_refused txn s found updated g (inr (n, stale)) = (
    record s { heap = set_txn txn (s.heap.txns txn) s.heap },
    commit_enters txn s found g n ∙ rw (stale, ◌>>=◌, n) refl,
    refl,
    refl,
    refl,
  )
  execute_commit_txn_refused txn s found updated g (inl (a, upd)) = (
    record s { heap = updated.0; locks = updated.1 },
    refused_run txn s found updated g a upd ∙ rw a refl,
    refl,
    refl,
    refl,
  )
