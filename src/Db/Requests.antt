-- ===== src/Db/Requests.antt =====
-- The calls of `InternalDB` of src/db/db.rs that pass a request on to the executor. The transactions of
-- the database and the executor stand in one heap, that of the executor.
use little_key_value_db.Prelude.{
  List, [], ◌∷◌, unfinished, Option, none, some, Outcome, done, panicked, ◌>>=◌, unwrap,
}
use little_key_value_db.Hlc.Timestamp.{Timestamp}
use little_key_value_db.Storage.Bytes.{Bytes, Key}
use little_key_value_db.Storage.Txn.{Uuid, TxnRecord, UncommittedValue}
use little_key_value_db.Storage.Store.{Engine, Serde}
use little_key_value_db.LockTable.Guard.{TxnLink}
use little_key_value_db.Execute.Span
use little_key_value_db.Execute.Span.{RequestUnion}
use little_key_value_db.Execute.Request.{ResponseUnion, begin_transaction, get, put}
use little_key_value_db.Execute.Request
use little_key_value_db.Execute.Retry.{
  Executor, Attempt, ExecuteResult, execute_ok, execute_err, read_refresh_failure,
  execute_txn_committed, execute_txn_aborted, execute_request_with_concurrency_retries,
}
use little_key_value_db.Db.{InternalDb, create_txn_internal, get_txn}

pub data CommitTxnFailureReason : Type 0 where
  read_refresh_fail commit_txn_aborted : CommitTxnFailureReason

pub data CommitTxnResult : Type 0 where
  success : Timestamp → CommitTxnResult
  fail : CommitTxnFailureReason → CommitTxnResult

-- The answer of `commit_txn` to what the executor returns.
unfoldable pub commit_result : ExecuteResult → Outcome CommitTxnResult
commit_result (execute_ok (Request.commit_txn commit_timestamp)) = done (success commit_timestamp)
commit_result (execute_ok begin_transaction) = panicked
commit_result (execute_ok Request.abort_txn) = panicked
commit_result (execute_ok (get value)) = panicked
commit_result (execute_ok put) = panicked
commit_result (execute_err read_refresh_failure) = done (fail read_refresh_fail)
commit_result (execute_err execute_txn_committed) = panicked
commit_result (execute_err execute_txn_aborted) = done (fail commit_txn_aborted)

-- The answer of `read`, with the value that is read back.
unfoldable pub read_result : {A : Type 0} → Serde A → ExecuteResult → Outcome (Option A)
read_result values (execute_ok (get none)) = done none
read_result values (execute_ok (get (some (key, value)))) = do
  read ← unwrap (values.from_slice value)
  done (some read)
read_result values (execute_ok begin_transaction) = panicked
read_result values (execute_ok (Request.commit_txn commit_timestamp)) = panicked
read_result values (execute_ok Request.abort_txn) = panicked
read_result values (execute_ok put) = panicked
read_result values (execute_err error) = panicked

-- What `begin_txn` unwraps.
unfoldable pub begin_result : ExecuteResult → Outcome ResponseUnion
begin_result (execute_ok response) = done response
begin_result (execute_err error) = panicked

module _ (e : Engine) (values : Serde UncommittedValue) (records : Serde TxnRecord)
    (uuid_to_string : Uuid → Bytes) where
  -- A request of a transaction of the database.
  abbrev pub request_of :
      RequestUnion
      → Uuid
      → List (Attempt e)
      → InternalDb
      → Executor e
      → Outcome (Executor e × ExecuteResult)
  request_of request txn_id attempts db x = do
    txn ← get_txn txn_id db
    execute_request_with_concurrency_retries e values records uuid_to_string request txn attempts x

  unfoldable pub write :
      {A : Type 0}
      → Serde A
      → Key
      → A
      → Uuid
      → List (Attempt e)
      → InternalDb
      → Executor e
      → Outcome (Executor e × ExecuteResult)
  write serde key value txn_id attempts db x =
      request_of (Span.put key (serde.to_json value)) txn_id attempts db x

  unfoldable pub read :
      {A : Type 0}
      → Serde A
      → Key
      → Uuid
      → List (Attempt e)
      → InternalDb
      → Executor e
      → Outcome (Executor e × Option A)
  unfolding read_result
  read serde key txn_id attempts db x = do
    response ← request_of (Span.get key) txn_id attempts db x
    value ← read_result serde response.1
    done (response.0, value)

  -- The id is that of `Uuid::new_v4`, and the link the address of the new transaction.
  unfoldable pub begin_txn :
      Uuid
      → TxnLink
      → List (Attempt e)
      → InternalDb
      → Executor e
      → Outcome (InternalDb × Executor e)
  unfolding begin_result
  begin_txn txn_id link attempts db x = do
    let created = create_txn_internal txn_id link (record db { heap = x.server.heap })
    begun ←
        execute_request_with_concurrency_retries e values records uuid_to_string
          (Span.begin_txn txn_id) link attempts
          (record x { server = record x.server { heap = created.heap } })
    response ← begin_result begun.1
    done (created, begun.0)

  unfoldable pub abort_txn :
      Uuid → List (Attempt e) → InternalDb → Executor e → Outcome (Executor e)
  abort_txn txn_id attempts db x = do
    response ← request_of Span.abort_txn txn_id attempts db x
    done response.0

  unfoldable pub commit_txn :
      Uuid → List (Attempt e) → InternalDb → Executor e → Outcome (Executor e × CommitTxnResult)
  unfolding commit_result
  commit_txn txn_id attempts db x = do
    response ← request_of Span.commit_txn txn_id attempts db x
    result ← commit_result response.1
    done (response.0, result)

  -- A round of the loop of `run_txn`: the new transaction, the code that is run with it, and the attempts
  -- of its first and last request.
  pub record TxnRun : Type 0 where
    pub txn_id : Uuid
    pub link : TxnLink
    pub begin_attempts : List (Attempt e)
    pub f : InternalDb → Executor e → Outcome (InternalDb × Executor e)
    pub commit_attempts : List (Attempt e)

  -- `DB::run_txn`
  unfoldable pub run_txn : List TxnRun → InternalDb → Executor e → Outcome (InternalDb × Executor e)
  unfolding begin_txn commit_txn
  run_txn [] db x = unfinished
  run_txn (r ∷ runs) db x = do
    begun ← begin_txn r.txn_id r.link r.begin_attempts db x
    ran ← r.f begun.0 begun.1
    committed ← commit_txn r.txn_id r.commit_attempts ran.0 ran.1
    elim committed.1 [
      | success commit_timestamp ↦ done (ran.0, committed.0)
      | fail reason ↦ run_txn runs ran.0 committed.0
    ]
