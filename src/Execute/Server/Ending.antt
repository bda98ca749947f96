-- ===== src/Execute/Server/Ending.antt =====
-- What the two ends of a transaction in src/execute/request.rs do to its record.
pub mod Commit
pub mod Abort
use little_key_value_db.Prelude.{
  ◌≡◌, refl, sym, ap, ◌∙◌, ◌⊎◌, inl, inr, Bool, true, false, List, [], ◌∷◌, Option, none, some,
  Outcome, done, ◌>>=◌, All, arith, Bool-cases, ◌==◌, ==_iff, if◌then◌else◌,
}
use little_key_value_db.Hlc.Timestamp.{Timestamp, IsWord, IsVersion}
use little_key_value_db.Storage.Bytes.{Bytes, Key, bytes_eq}
use little_key_value_db.Storage.Bytes.Order.{bytes_eq_refl}
use little_key_value_db.Storage.Txn.{
  Uuid, Txn, TxnRecord, UncommittedValue, TransactionStatus, pending, committed, aborted,
}
use little_key_value_db.Storage.Store.{
  Engine, Serde, put_serialized, put_raw, get_serialized, get_transaction_record as read_record,
  put_transaction_record as write_record,
}
use little_key_value_db.Storage.Mvcc.{
  get_transaction_record, put_transaction_record, record_of, commit_transaction_record,
  update_transaction_record_to_abort,
}
use little_key_value_db.Storage.Mvcc.Write.{record_round_trip}
use little_key_value_db.LockTable.Guard.{Heap, TxnLink, set_txn}
use little_key_value_db.LockTable.Table.{Locks, commit, abort}
use little_key_value_db.Concurrency.{update_txn_locks}
use little_key_value_db.TxnWait.{TxnWaitQueue, finalize_txn}
use little_key_value_db.Execute.Executor.{
  refresh_keys, refresh_read_timestamp, resolve_keys, resolve_intents_for_txn,
}
use little_key_value_db.Execute.Request.{
  ResponseResult, ok_response, err_response, commit_txn, abort_txn, txn_aborted_error,
  read_refresh_error,
}
use little_key_value_db.Execute.Server.{
  Server, delete_intents, finish_abort, execute_abort_txn, finish_commit, commit_of_aborted,
  execute_commit_txn,
}
use little_key_value_db.Execute.Server.Resolve.{
  IsNamed, IsReadable, IsGone, IsResolved, OnlyRemoves, IsReadable-after_record,
}
use little_key_value_db.Execute.Server.Resolve.Loops.{resolve_keys_lem, delete_intents_lem}

-- The record that was found has the status.
unfoldable pub has_status : TransactionStatus → Option TxnRecord → Bool
has_status status none = false
has_status committed (some r) = elim r.status [
  | committed ↦ true
  | pending ↦ false
  | aborted ↦ false
]
has_status aborted (some r) = elim r.status [ aborted ↦ true | pending ↦ false | committed ↦ false ]
has_status pending (some r) = elim r.status [ pending ↦ true | aborted ↦ false | committed ↦ false ]

module _ (e : Engine) (values : Serde UncommittedValue) (records : Serde TxnRecord)
    (uuid_to_string : Uuid → Bytes) where
  open e use {Db, get_cf, put_cf, get-put}

  abbrev pub record_in : Uuid → Db → Outcome (Option TxnRecord)
  record_in txn_id db = get_transaction_record e values records uuid_to_string txn_id db

  pub same_record :
      (txn_id : Uuid) (db db' : Db)
      → OnlyRemoves e values db db'
      → record_in txn_id db' ≡ record_in txn_id db
  unfolding get_transaction_record read_record
  same_record txn_id db db' o = rw (get_serialized, o.1 (uuid_to_string txn_id)) refl

  pub committed_record :
      (txn_id : Uuid) (ts : Timestamp) (db : Db)
      → record_in txn_id (commit_transaction_record e values records uuid_to_string txn_id ts db)
        ≡ done (some (record_of committed txn_id ts))
  committed_record txn_id ts db =
      (record_round_trip e values records uuid_to_string txn_id txn_id ts db).1
      ∙ rw (bytes_eq_refl (uuid_to_string txn_id)) refl

  pub aborted_record :
      (txn_id : Uuid) (ts : Timestamp) (db : Db)
      → record_in txn_id
          (update_transaction_record_to_abort e values records uuid_to_string txn_id ts db)
        ≡ done (some (record_of aborted txn_id ts))
  aborted_record txn_id ts db =
      (record_round_trip e values records uuid_to_string txn_id txn_id ts db).2
      ∙ rw (bytes_eq_refl (uuid_to_string txn_id)) refl
