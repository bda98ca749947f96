-- ===== src/Storage/Mvcc.antt =====
-- src/storage/mvcc.rs: `KVStore` over an engine, with the serialisations of the two types that it
-- stores. A transaction's link is read once for each call, so the transaction itself is passed.
pub mod Read
pub mod Latest
pub mod Write
use little_key_value_db.Prelude.{
  ℕ, suc, Bool, true, false, ◌&&◌, List, [], ◌∷◌, ◌++◌, Option, none, some, Outcome, done, panicked,
  unfinished, ◌>>=◌, unwrap, if◌then◌else◌, ◌==◌, length,
}
use little_key_value_db.Hlc.Timestamp.{Timestamp}
use little_key_value_db.Storage.Bytes.{Bytes, Key, Value, bytes_eq}
use little_key_value_db.Storage.Key.{MvccKey, create_intent_key, is_intent_key, decode_mvcc_key}
use little_key_value_db.Storage.Txn.{
  Uuid, Txn, TxnIntent, TxnMetadata, TxnRecord, TransactionStatus, pending, committed, aborted,
  UncommittedValue,
}
use little_key_value_db.Storage.Store.{Engine, Serde, mvcc}
use little_key_value_db.Storage.Store
use little_key_value_db.Storage.Iterator
use little_key_value_db.Storage.Iterator.{
  MvccIterator, seek_ge, current_key, current_value_serialized, valid,
}
use little_key_value_db.Storage.Scanner

pub record MvccScanParams : Type 0 where
  pub max_result_count : ℕ
  pub transaction : Option Txn

pub record MvccGetResult : Type 0 where
  pub value : Option (MvccKey × Value)
  pub intent : Option (TxnIntent × Value)

pub record MvccScanResult : Type 0 where
  pub results : List (MvccKey × Value)
  pub intents : List (TxnIntent × Value)

-- `Result<MVCCKey, WriteIntentError>`
pub data PutResult : Type 0 where
  ok : MvccKey → PutResult
  write_intent_error : TxnIntent → PutResult

-- `first()`
abbrev pub first {ℓ} : {A : Type ℓ} → List A → Option A
first [] = none
first (x ∷ xs) = some x

abbrev pub record_of : TransactionStatus → Uuid → Timestamp → TxnRecord
record_of status txn_id write_timestamp = record {
  status = status;
  metadata = record { txn_id = txn_id; write_timestamp = write_timestamp };
}

-- The match of `mvcc_put_raw` on the uncommitted value that is there: `none` to go on, or the intent
-- to report. The two `todo!()` panic.
unfoldable pub check_intent :
    Key → Option (TxnMetadata × TxnRecord) → Option Txn → Outcome (Option TxnIntent)
check_intent key none txn = done none
check_intent key (some found) none = done none
check_intent key (some (metadata, transaction_record)) (some put_txn) =
    if metadata.txn_id == put_txn.txn_id then done none else elim transaction_record.status [
      | pending ↦ done (some (record { txn_meta = metadata; key = key }))
      | committed ↦ panicked
      | aborted ↦ panicked
    ]

-- The two calls `timestamp.unwrap()`, or the transaction's write timestamp.
unfoldable pub put_timestamp : Option Timestamp → Option Txn → Outcome Timestamp
put_timestamp timestamp (some transaction) = done transaction.write_timestamp
put_timestamp timestamp none = unwrap timestamp

module _ (e : Engine) (values : Serde UncommittedValue) where
  open e use {Db, iterator_cf}

  unfoldable pub mvcc_scan : Key → Key → Timestamp → MvccScanParams → Db → Outcome MvccScanResult
  mvcc_scan start_key end_key timestamp scan_params db = do
    let it : MvccIterator = Iterator.new (iterator_cf mvcc db)
    scanner ← Scanner.scan values (
        Scanner.new it start_key (some end_key) timestamp scan_params.max_result_count
          scan_params.transaction)
    done (record { results = scanner.results; intents = scanner.found_intents })

  -- `MVCCGetParams` holds the transaction alone.
  unfoldable pub mvcc_get : Key → Timestamp → Option Txn → Db → Outcome MvccGetResult
  mvcc_get key timestamp transaction db = do
    res ←
        mvcc_scan key key timestamp (record { max_result_count = 1; transaction = transaction }) db
    done (record { value = first res.results; intent = first res.intents })

  unfoldable pub mvcc_delete : MvccKey → Db → Outcome Db
  mvcc_delete key db = Store.delete_mvcc e key db

  unfoldable pub get_uncommitted_value : MvccKey → Db → Outcome (Option UncommittedValue)
  get_uncommitted_value key db = Store.get_serialized_with_mvcc_key e values key db

  unfoldable pub mvcc_resolve_intent : Key → Timestamp → Uuid → Db → Outcome Db
  mvcc_resolve_intent key commit_timestamp txn_id db = do
    found ← get_uncommitted_value (create_intent_key key) db
    elim found [
      | none ↦ done db
      | some uncommitted_value ↦
          if uncommitted_value.txn_metadata.txn_id == txn_id
          then (do
            deleted ← Store.delete_mvcc e (create_intent_key key) db
            Store.put_raw_with_mvcc_key e (record { key = key; timestamp = commit_timestamp })
                uncommitted_value.value deleted)
          else done db
    ]

  module _ (records : Serde TxnRecord) (uuid_to_string : Uuid → Bytes) where
    unfoldable pub get_transaction_record : Uuid → Db → Outcome (Option TxnRecord)
    get_transaction_record transaction_id db =
        Store.get_transaction_record e records uuid_to_string transaction_id db

    unfoldable pub put_transaction_record : Uuid → TxnRecord → Db → Db
    put_transaction_record transaction_id txn_record db =
        Store.put_transaction_record e records uuid_to_string transaction_id txn_record db

    unfoldable pub create_pending_transaction_record : Uuid → Timestamp → Db → Db
    create_pending_transaction_record txn_id write_timestamp db =
        put_transaction_record txn_id (record_of pending txn_id write_timestamp) db

    unfoldable pub commit_transaction_record : Uuid → Timestamp → Db → Db
    commit_transaction_record transaction_id write_timestamp db =
        put_transaction_record transaction_id (record_of committed transaction_id write_timestamp)
          db

    unfoldable pub update_transaction_record_to_abort : Uuid → Timestamp → Db → Db
    update_transaction_record_to_abort transaction_id write_timestamp db =
        put_transaction_record transaction_id (record_of aborted transaction_id write_timestamp) db

    unfoldable pub mvcc_get_uncommited_value : Key → Db → Outcome (Option (TxnMetadata × TxnRecord))
    mvcc_get_uncommited_value key db = do
      sought ← seek_ge (Iterator.new (iterator_cf mvcc db)) (create_intent_key key)
      if sought.1
          then (do
            curr_key ← current_key sought.0
            if is_intent_key curr_key && bytes_eq curr_key.key key
                then (do
                  value ← current_value_serialized values sought.0
                  found ← get_transaction_record value.txn_metadata.txn_id db
                  transaction_record ← unwrap found
                  done (some (value.txn_metadata, transaction_record)))
                else done none)
          else done none

    -- The write of `mvcc_put_raw`: an intent for a transaction, a version without one.
    unfoldable pub write_value : Key → Timestamp → Option Txn → Value → Db → Outcome Db
    write_value key write_timestamp none value db =
        Store.put_raw_with_mvcc_key e (record { key = key; timestamp = write_timestamp }) value db
    write_value key write_timestamp (some transaction) value db =
        Store.put_serialized_with_mvcc_key e values (create_intent_key key)
          (record {
            value = value;
            txn_metadata = record {
              txn_id = transaction.txn_id;
              write_timestamp = write_timestamp;
            };
          })
          db

    unfoldable pub mvcc_put_raw :
        Key → Option Timestamp → Option Txn → Value → Db → Outcome (Db × PutResult)
    unfolding check_intent put_timestamp write_value
    mvcc_put_raw key timestamp txn value db = do
      intent ← mvcc_get_uncommited_value key db
      conflict ← check_intent key intent txn
      elim conflict [
        | some found ↦ done (db, write_intent_error found)
        | none ↦ do
          write_timestamp ← put_timestamp timestamp txn
          written ← write_value key write_timestamp txn value db
          done (written, ok (record { key = key; timestamp = write_timestamp }))
      ]

    -- The parameter `to_value` is `serialize`, for the type of the value.
    unfoldable pub mvcc_put :
        {T : Type 0}
        → (T → Value)
        → Key
        → Option Timestamp
        → Option Txn
        → T
        → Db
        → Outcome (Db × PutResult)
    unfolding mvcc_put_raw
    mvcc_put to_value key timestamp txn value db =
        mvcc_put_raw key timestamp txn (to_value value) db
