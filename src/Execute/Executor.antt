-- ===== src/Execute/Executor.antt =====
-- The methods of `Executor` of src/execute/executor.rs that work on the store.
pub mod Refresh
use little_key_value_db.Prelude.{
  Bool, true, false, not, ◌&&◌, List, [], ◌∷◌, Option, none, some, Outcome, done, ◌>>=◌,
  if◌then◌else◌, ◌==◌,
}
use little_key_value_db.Hlc.Timestamp.{Timestamp}
use little_key_value_db.Storage.Bytes.{Bytes, Key}
use little_key_value_db.Storage.Key.{create_intent_key}
use little_key_value_db.Storage.Txn.{
  Uuid, Txn, TxnIntent, TxnRecord, UncommittedValue, TransactionStatus, pending, committed, aborted,
}
use little_key_value_db.Storage.Store.{Engine, Serde}
use little_key_value_db.Storage.Mvcc.{
  MvccGetResult, mvcc_get, mvcc_delete, mvcc_resolve_intent, get_transaction_record,
}
use little_key_value_db.LockTable.State.{is_before}

-- The two tests of `refresh_read_timestamp` on what a read finds; `false` ends the refresh.
unfoldable pub may_refresh : Txn → MvccGetResult → Bool
may_refresh t res =
    let no_intent : Bool = elim res.intent [
      | none ↦ true
      | some found ↦ not (
          not (found.0.txn_meta.txn_id == t.txn_id)
          && is_before found.0.txn_meta.write_timestamp t.write_timestamp)
    ] in
    elim res.value [
      | none ↦ no_intent
      | some found ↦ if is_before found.0.timestamp t.read_timestamp then false else no_intent
    ]

module _ (e : Engine) (values : Serde UncommittedValue) where
  open e use {Db}

  -- The loop of `refresh_read_timestamp` over the read set.
  unfoldable pub refresh_keys : List Key → Txn → Db → Outcome Bool
  unfolding may_refresh
  refresh_keys [] t db = done true
  refresh_keys (key ∷ keys) t db = do
    res ← mvcc_get e values key t.write_timestamp (some t) db
    elim (may_refresh t res) [ true ↦ refresh_keys keys t db | false ↦ done false ]

  -- The transaction after the call, and the result.
  unfoldable pub refresh_read_timestamp : Txn → Db → Outcome (Txn × Bool)
  unfolding refresh_keys
  refresh_read_timestamp t db = do
    refreshed ← refresh_keys t.read_set t db
    elim refreshed [
      | true ↦ done (record t { write_timestamp = t.write_timestamp }, true)
      | false ↦ done (t, false)
    ]

  -- The loop of `resolve_intents_for_txn`.
  unfoldable pub resolve_keys : List Key → Txn → Db → Outcome Db
  resolve_keys [] t db = done db
  resolve_keys (key ∷ keys) t db = do
    resolved ← mvcc_resolve_intent e values key t.write_timestamp t.txn_id db
    resolve_keys keys t resolved

  unfoldable pub resolve_intents_for_txn : Txn → Db → Outcome Db
  unfolding resolve_keys
  resolve_intents_for_txn t db = resolve_keys t.lock_spans t db

  unfoldable pub handle_write_intent_error :
      Serde TxnRecord → (Uuid → Bytes) → TxnIntent → Db → Outcome Db
  handle_write_intent_error records uuid_to_string txn_intent db = do
    found ← get_transaction_record e values records uuid_to_string txn_intent.txn_meta.txn_id db
    elim found [
      | none ↦ done db
      | some txn_record ↦ elim txn_record.status [
        | pending ↦ done db
        | committed ↦ done db
        | aborted ↦ mvcc_delete e values (create_intent_key txn_intent.key) db
      ]
    ]
