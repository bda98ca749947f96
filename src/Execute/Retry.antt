-- ===== src/Execute/Retry.antt =====
-- `execute_request_with_concurrency_retries` of src/execute/executor.rs: a request is sequenced, run and
-- finished until it succeeds or fails for good.
use little_key_value_db.Prelude.{List, [], ◌∷◌, Outcome, done, unfinished, ◌>>=◌, if◌then◌else◌}
use little_key_value_db.Storage.Bytes.{Bytes}
use little_key_value_db.Storage.Txn.{Uuid, TxnRecord, UncommittedValue}
use little_key_value_db.Storage.Store.{Engine, Serde}
use little_key_value_db.LockTable.Guard.{TxnLink}
use little_key_value_db.Latch.Manager.{LatchManager}
use little_key_value_db.Oracle.Cache.{TimestampOracle}
use little_key_value_db.Concurrency.Wait.{Manager}
use little_key_value_db.Concurrency.Sequence.{
  Guard, SequenceReqError, sequence_txn_aborted, sequence_txn_committed, Round, sequenced, refused,
  sequence_req, finish_req,
}
use little_key_value_db.Execute.Span.{RequestUnion, is_read_only}
use little_key_value_db.Execute.Executor.{handle_write_intent_error}
use little_key_value_db.Execute.Request.{
  ResponseUnion, ResponseResult, ok_response, err_response, write_intent_error_data,
  read_refresh_error, txn_aborted_error,
}
use little_key_value_db.Execute.Server.{Server, execute_write_request, execute_read_only_request}

pub data ExecuteError : Type 0 where
  read_refresh_failure execute_txn_committed execute_txn_aborted : ExecuteError

-- `Result<ResponseUnion, ExecuteError>`
pub data ExecuteResult : Type 0 where
  execute_ok : ResponseUnion → ExecuteResult
  execute_err : ExecuteError → ExecuteResult

abbrev pub execute_error : SequenceReqError → ExecuteError
execute_error sequence_txn_aborted = execute_txn_aborted
execute_error sequence_txn_committed = execute_txn_committed

-- The executor with the latches of its concurrency manager.
pub record Executor (e : Engine) : Type 0 where
  pub server : Server e
  pub latches : LatchManager

-- A round of the loop: the rounds of its sequencing, and the store and the oracle as the other calls
-- have left them by its end.
pub record Attempt (e : Engine) : Type 0 where
  pub rounds : List Round
  pub store : e.Db → e.Db
  pub timestamp_oracle : TimestampOracle → TimestampOracle

module _ {e : Engine} where
  abbrev pub concr_manager : Executor e → Manager
  concr_manager x = record {
    latches = x.latches;
    heap = x.server.heap;
    locks = x.server.locks;
    waits = x.server.waits;
  }

  abbrev pub with_manager : Executor e → Manager → Executor e
  with_manager x s = record x {
    server = record x.server { heap = s.heap; locks = s.locks; waits = s.waits };
    latches = s.latches;
  }

  abbrev pub meanwhile : Attempt e → Executor e → Executor e
  meanwhile a x = record x {
    server = record x.server {
      db = a.store x.server.db;
      oracle = a.timestamp_oracle x.server.oracle;
    };
  }

module _ (e : Engine) (values : Serde UncommittedValue) (records : Serde TxnRecord)
    (uuid_to_string : Uuid → Bytes) where
  -- One attempt of a request that is sequenced, with its end.
  unfoldable pub attempt_request :
      RequestUnion → TxnLink → Guard → Executor e → Outcome (Executor e × ResponseResult)
  unfolding execute_write_request execute_read_only_request
  attempt_request request txn guard x = do
    executed ←
        (if is_read_only request
          then execute_read_only_request e values records uuid_to_string request txn x.server
          else execute_write_request e values records uuid_to_string request txn x.server)
    let ran : Executor e = record x { server = executed.0 }
    finished ← finish_req guard (concr_manager ran)
    done (with_manager ran finished, executed.1)

  unfoldable pub execute_request_with_concurrency_retries :
      RequestUnion → TxnLink → List (Attempt e) → Executor e → Outcome (Executor e × ExecuteResult)
  unfolding attempt_request
  execute_request_with_concurrency_retries request txn [] x = unfinished
  execute_request_with_concurrency_retries request txn (a ∷ attempts) x = do
    guard ← sequence_req request txn a.rounds (concr_manager x)
    let arrived = meanwhile a (with_manager x guard.0)
    elim guard.1 [
      | refused error ↦ done (arrived, execute_err (execute_error error))
      | sequenced guard ↦ do
        result ← attempt_request request txn guard arrived
        elim result.1 [
          | ok_response response ↦ done (result.0, execute_ok response)
          | err_response error ↦ elim error [
            | write_intent_error_data intent ↦ do
              db ←
                  handle_write_intent_error e values records uuid_to_string intent
                    result.0.server.db
              execute_request_with_concurrency_retries request txn attempts
                  (record (result.0) { server = record result.0.server { db = db } })
            | read_refresh_error ↦ done (result.0, execute_err read_refresh_failure)
            | txn_aborted_error ↦ done (result.0, execute_err execute_txn_aborted)
          ]
        ]
    ]
