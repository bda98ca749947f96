-- ===== src/Execute/Request.antt =====
-- The execution of the requests of src/execute/request.rs that begin a transaction, read and write.
-- Those that commit and abort change the whole state: Execute/Server has them.
pub mod Reads
pub mod Puts
use little_key_value_db.Prelude.{
  ℕ, Bool, true, false, List, [], ◌∷◌, Option, none, some, Outcome, done, ◌>>=◌, if◌then◌else◌,
  ◌==◌,
}
use little_key_value_db.Hlc.Timestamp.{Timestamp}
use little_key_value_db.Storage.Bytes.{Bytes, Key, Value}
use little_key_value_db.Storage.Key.{MvccKey, create_intent_key}
use little_key_value_db.Storage.Txn.{
  Uuid, Txn, TxnIntent, TxnRecord, UncommittedValue, append_read_sets, append_lock_span,
}
use little_key_value_db.Storage.Iterator.{at_most}
use little_key_value_db.Storage.Store.{Engine, Serde}
use little_key_value_db.Storage.Mvcc.{
  MvccGetResult, PutResult, ok, write_intent_error, mvcc_get, mvcc_put_raw,
  create_pending_transaction_record,
}
use little_key_value_db.LockTable.Guard.{Heap, TxnLink, set_txn}
use little_key_value_db.LockTable.Table.{Locks, acquire_lock}

pub data ResponseUnion : Type 0 where
  begin_transaction : ResponseUnion
  commit_txn : Timestamp → ResponseUnion
  abort_txn : ResponseUnion
  get : Option (MvccKey × Value) → ResponseUnion
  put : ResponseUnion

pub data ResponseError : Type 0 where
  write_intent_error_data : TxnIntent → ResponseError
  read_refresh_error : ResponseError
  txn_aborted_error : ResponseError

-- `Result<ResponseUnion, ResponseError>`
pub data ResponseResult : Type 0 where
  ok_response : ResponseUnion → ResponseResult
  err_response : ResponseError → ResponseResult

-- The results that the requests below give.
abbrev pub begun : ResponseResult
begun = ok_response begin_transaction

abbrev pub got : Option (MvccKey × Value) → ResponseResult
got value = ok_response (get value)

abbrev pub stored : ResponseResult
stored = ok_response put

abbrev pub intent_in_the_way : TxnIntent → ResponseResult
intent_in_the_way intent = err_response (write_intent_error_data intent)

-- `GetRequest::execute` past the read: the transaction and the response.
unfoldable pub get_response : Key → Txn → MvccGetResult → Txn × ResponseResult
get_response key t result = elim result.intent [
  | none ↦ (append_read_sets t key, got result.value)
  | some found ↦
      if t.txn_id == found.0.txn_meta.txn_id
      then (append_read_sets t key, got (some (create_intent_key key, found.1)))
      else if at_most found.0.txn_meta.write_timestamp t.read_timestamp
      then (t, intent_in_the_way found.0)
      else (append_read_sets t key, got result.value)
]

module _ (e : Engine) (values : Serde UncommittedValue) where
  open e use {Db}

  unfoldable pub execute_get : Key → Txn → Db → Outcome (Txn × ResponseResult)
  unfolding get_response
  execute_get key t db = do
    result ← mvcc_get e values key t.read_timestamp (some t) db
    done (get_response key t result)

  module _ (records : Serde TxnRecord) (uuid_to_string : Uuid → Bytes) where
    -- `BeginTxnRequest::execute`
    unfoldable pub execute_begin_txn : Uuid → Txn → Db → Db × ResponseResult
    execute_begin_txn txn_id t db = (
      create_pending_transaction_record e values records uuid_to_string txn_id t.write_timestamp db,
      begun,
    )

    -- `PutRequest::execute`: the store, the heap and the lock table, and the response.
    unfoldable pub execute_put :
        Key → Value → TxnLink → Db → Heap → Locks → Outcome (Db × Heap × Locks × ResponseResult)
    execute_put key value txn db h locks = do
      res ← mvcc_put_raw e values records uuid_to_string key none (some (h.txns txn)) value db
      elim res.1 [
        | ok mvcc_key ↦ do
          acquired ← acquire_lock key txn h locks
          done (res.0, set_txn txn (append_lock_span (h.txns txn) key) h, acquired, stored)
        | write_intent_error intent ↦ done (res.0, h, locks, intent_in_the_way intent)
      ]
