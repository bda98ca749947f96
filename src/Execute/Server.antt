-- ===== src/Execute/Server.antt =====
-- The execution of all requests of src/execute/request.rs on the whole state, and the methods of
-- src/execute/executor.rs that run one attempt of a request.
pub mod Ending
pub mod Resolve
pub mod Bump
use little_key_value_db.Prelude.{
  Ordering, lt, eq, gt, Bool, true, false, List, [], ◌∷◌, Option, none, some, Outcome, done, ◌>>=◌,
}
use little_key_value_db.Hlc.Timestamp
use little_key_value_db.Hlc.Timestamp.{Timestamp}
use little_key_value_db.Storage.Bytes.{Bytes, Key}
use little_key_value_db.Storage.Key.{create_intent_key}
use little_key_value_db.Storage.Txn.{
  Uuid, Txn, TxnRecord, UncommittedValue, TransactionStatus, pending, committed, aborted,
}
use little_key_value_db.Storage.Store.{Engine, Serde}
use little_key_value_db.Storage.Mvcc.{
  mvcc_delete, get_transaction_record, commit_transaction_record,
  update_transaction_record_to_abort,
}
use little_key_value_db.LockTable.Guard.{Heap, TxnLink, SpanSet, set_txn}
use little_key_value_db.LockTable.State.{is_before}
use little_key_value_db.LockTable.Table.{Locks, commit, abort}
use little_key_value_db.Concurrency.{update_txn_locks}
use little_key_value_db.TxnWait.{TxnWaitQueue, finalize_txn}
use little_key_value_db.Oracle.Cache.{TimestampOracle, get_max_timestamp, update_cache}
use little_key_value_db.Execute.Span
use little_key_value_db.Execute.Span.{RequestUnion, collect_spans}
use little_key_value_db.Execute.Executor.{refresh_read_timestamp, resolve_intents_for_txn}
use little_key_value_db.Execute.Request.{
  ResponseResult, ok_response, err_response, commit_txn, abort_txn, txn_aborted_error,
  read_refresh_error, execute_get, execute_put, execute_begin_txn,
}

-- What the executor and its concurrency manager keep, and the heap.
pub record Server (e : Engine) : Type 0 where
  pub db : e.Db
  pub heap : Heap
  pub locks : Locks
  pub waits : TxnWaitQueue
  pub oracle : TimestampOracle

-- The loop of `execute_write_request` over the spans: their maxima, where there are some.
unfoldable pub span_maxima : SpanSet → TimestampOracle → Outcome (List Timestamp)
span_maxima [] oracle = done []
span_maxima (span ∷ spans) oracle = do
  res ← get_max_timestamp span.start_key span.end_key oracle
  rest ← span_maxima spans oracle
  done (elim res [ none ↦ rest | some found ↦ found.0 ∷ rest ])

-- `Iterator::max`, from the maximum so far: the last of equal ones
unfoldable pub max_from : Timestamp → List Timestamp → Timestamp
max_from m [] = m
max_from m (t ∷ ts) = max_from (elim (Timestamp.cmp m t) [ gt ↦ m | eq ↦ t | lt ↦ t ]) ts

-- The transaction with its write timestamp raised to the maximum.
unfoldable pub bump_to : List Timestamp → Txn → Txn
unfolding max_from
bump_to [] t = t
bump_to (m ∷ ms) t =
    let max_timestamp = max_from m ms in
    elim (is_before t.write_timestamp max_timestamp) [
      | true ↦ record t { write_timestamp = max_timestamp }
      | false ↦ t
    ]

module _ (e : Engine) (values : Serde UncommittedValue) (records : Serde TxnRecord)
    (uuid_to_string : Uuid → Bytes) where
  open e use {Db}

  -- The loop of `AbortTxnRequest::execute` over the keys.
  unfoldable pub delete_intents : List Key → Db → Outcome Db
  delete_intents [] db = done db
  delete_intents (key ∷ keys) db = do
    deleted ← mvcc_delete e values (create_intent_key key) db
    delete_intents keys deleted

  -- The end of `AbortTxnRequest::execute`.
  unfoldable pub finish_abort : TxnLink → Server e → Outcome (Server e × ResponseResult)
  unfolding delete_intents
  finish_abort txn s = do
    let t = s.heap.txns txn
    let aborted_db =
        update_transaction_record_to_abort e values records uuid_to_string t.txn_id
          t.write_timestamp s.db
    deleted ← delete_intents t.lock_spans aborted_db
    updated ← update_txn_locks txn (abort t.txn_id) s.heap s.locks
    waits ← finalize_txn t.txn_id s.waits
    done (
      record s { db = deleted; heap = updated.0; locks = updated.1; waits = waits },
      ok_response abort_txn,
    )

  -- `AbortTxnRequest::execute`
  unfoldable pub execute_abort_txn : TxnLink → Server e → Outcome (Server e × ResponseResult)
  unfolding finish_abort
  execute_abort_txn txn s = do
    found ← get_transaction_record e values records uuid_to_string (s.heap.txns txn).txn_id s.db
    elim found [
      | none ↦ finish_abort txn s
      | some r ↦ elim r.status [
        | committed ↦ done (s, ok_response abort_txn)
        | pending ↦ finish_abort txn s
        | aborted ↦ finish_abort txn s
      ]
    ]

  -- `CommitTxnRequest::execute` from the read refresh on. The id and the write timestamp were read
  -- before.
  unfoldable pub finish_commit :
      TxnLink → Uuid → Timestamp → Server e → Outcome (Server e × ResponseResult)
  finish_commit txn txn_id write_timestamp s = do
    refreshed ← refresh_read_timestamp e values (s.heap.txns txn) s.db
    let heap : Heap = set_txn txn refreshed.0 s.heap
    elim refreshed.1 [
      | false ↦ done (record s { heap = heap }, err_response read_refresh_error)
      | true ↦ do
        let committed_db =
            commit_transaction_record e values records uuid_to_string txn_id write_timestamp s.db
        resolved ← resolve_intents_for_txn e values (heap.txns txn) committed_db
        updated ← update_txn_locks txn (commit txn_id write_timestamp) heap s.locks
        waits ← finalize_txn txn_id s.waits
        done (
          record s { db = resolved; heap = updated.0; locks = updated.1; waits = waits },
          ok_response (commit_txn write_timestamp),
        )
    ]

  -- The end of `CommitTxnRequest::execute` for a transaction that was aborted.
  unfoldable pub commit_of_aborted : TxnLink → Server e → Outcome (Server e × ResponseResult)
  commit_of_aborted txn s = do
    updated ← update_txn_locks txn (abort (s.heap.txns txn).txn_id) s.heap s.locks
    done (record s { heap = updated.0; locks = updated.1 }, err_response txn_aborted_error)

  -- `CommitTxnRequest::execute`
  unfoldable pub execute_commit_txn : TxnLink → Server e → Outcome (Server e × ResponseResult)
  unfolding finish_commit commit_of_aborted
  execute_commit_txn txn s = do
    let t = s.heap.txns txn
    found ← get_transaction_record e values records uuid_to_string t.txn_id s.db
    elim found [
      | none ↦ finish_commit txn t.txn_id t.write_timestamp s
      | some r ↦ elim r.status [
        | aborted ↦ commit_of_aborted txn s
        | pending ↦ finish_commit txn t.txn_id t.write_timestamp s
        | committed ↦ finish_commit txn t.txn_id t.write_timestamp s
      ]
    ]

  -- `RequestUnion::execute`
  unfoldable pub execute : RequestUnion → TxnLink → Server e → Outcome (Server e × ResponseResult)
  unfolding execute_abort_txn execute_commit_txn
  execute (Span.begin_txn txn_id) txn s =
      let begun = execute_begin_txn e values records uuid_to_string txn_id (s.heap.txns txn) s.db in
      done (record s { db = begun.0 }, begun.1)
  execute Span.abort_txn txn s = execute_abort_txn txn s
  execute Span.commit_txn txn s = execute_commit_txn txn s
  execute (Span.get key) txn s = do
    got ← execute_get e values key (s.heap.txns txn) s.db
    done (record s { heap = set_txn txn got.0 s.heap }, got.1)
  execute (Span.put key value) txn s = do
    stored ← execute_put e values records uuid_to_string key value txn s.db s.heap s.locks
    done (record s { db = stored.0; heap = stored.1; locks = stored.2 }, stored.3)

  unfoldable pub execute_write_request :
      RequestUnion → TxnLink → Server e → Outcome (Server e × ResponseResult)
  unfolding span_maxima bump_to execute
  execute_write_request request txn s = do
    maxima ← span_maxima (collect_spans request (s.heap.txns txn)) s.oracle
    execute request txn (record s { heap = set_txn txn (bump_to maxima (s.heap.txns txn)) s.heap })

  unfoldable pub execute_read_only_request :
      RequestUnion → TxnLink → Server e → Outcome (Server e × ResponseResult)
  unfolding execute
  execute_read_only_request request txn s = do
    executed ← execute request txn s
    oracle ← update_cache request (executed.0.heap.txns txn) executed.0.oracle
    done (record executed.0 { oracle = oracle }, executed.1)
