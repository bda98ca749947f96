-- ===== src/Storage/Txn.antt =====
-- src/storage/txn.rs: transactions and what the store keeps of them. A `Uuid` is a number. The
-- locks around the fields are left out: every method here holds its lock for one access.
pub mod Laws
use little_key_value_db.Prelude.{ℕ, Bool, true, false, List, [], ◌∷◌, ◌++◌, ◌||◌, if◌then◌else◌}
use little_key_value_db.Hlc.Timestamp.{Timestamp, advance_to}
use little_key_value_db.Storage.Bytes.{Key, Value, bytes_eq}

abbrev pub Uuid : Type 0
Uuid = ℕ

pub record TxnMetadata : Type 0 where
  pub txn_id : Uuid
  pub write_timestamp : Timestamp

pub record TxnIntent : Type 0 where
  pub txn_meta : TxnMetadata
  pub key : Key

pub record UncommittedValue : Type 0 where
  pub value : Value
  pub txn_metadata : TxnMetadata

pub data TransactionStatus : Type 0 where
  pending committed aborted : TransactionStatus

pub record TxnRecord : Type 0 where
  pub status : TransactionStatus
  pub metadata : TxnMetadata

pub record Txn : Type 0 where
  pub txn_id : Uuid
  pub write_timestamp : Timestamp
  pub read_timestamp : Timestamp
  pub lock_spans : List Key
  pub read_set : List Key

unfoldable pub new : Uuid → Timestamp → Txn
new transaction_id timestamp = record {
  txn_id = transaction_id;
  write_timestamp = timestamp;
  read_timestamp = timestamp;
  lock_spans = [];
  read_set = [];
}

unfoldable pub to_intent : Txn → Key → TxnIntent
to_intent t key = record {
  txn_meta = record { txn_id = t.txn_id; write_timestamp = t.write_timestamp };
  key = key;
}

abbrev pub to_txn_metadata : Txn → TxnMetadata
to_txn_metadata t = record { txn_id = t.txn_id; write_timestamp = t.write_timestamp }

-- `contains`
unfoldable pub contains : List Key → Key → Bool
contains [] key = false
contains (k ∷ ks) key = bytes_eq k key || contains ks key

unfoldable pub append_lock_span : Txn → Key → Txn
unfolding contains
append_lock_span t key =
    if contains t.lock_spans key then t else record t { lock_spans = t.lock_spans ++ (key ∷ []) }

unfoldable pub append_read_sets : Txn → Key → Txn
append_read_sets t key = record t { read_set = t.read_set ++ (key ∷ []) }

unfoldable pub bump_write_timestamp : Txn → Timestamp → Txn
bump_write_timestamp t new_timestamp = record t {
  write_timestamp = advance_to t.write_timestamp new_timestamp;
}

unfoldable pub get_txn_properties : Txn → Uuid × Timestamp × Timestamp
get_txn_properties t = (t.txn_id, t.read_timestamp, t.write_timestamp)

unfoldable pub new_intent : Uuid → Timestamp → Key → TxnIntent
new_intent txn_id write_timestamp key = record {
  txn_meta = record { txn_id = txn_id; write_timestamp = write_timestamp };
  key = key;
}
