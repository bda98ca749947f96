-- ===== src/Tests/Data.antt =====
-- Inputs for the examples: keys, versions, transactions and a stand-in for serde_json.
use little_key_value_db.Prelude.{ℕ, zero, suc, ◌≡◌, refl, [], ◌∷◌, Option, none, some}
use little_key_value_db.Hlc.Timestamp.{Timestamp}
use little_key_value_db.Storage.Bytes.{Bytes, Key, Value}
use little_key_value_db.Storage.Txn.{
  Uuid, Txn, TxnMetadata, TxnRecord, TransactionStatus, pending, committed, aborted,
  UncommittedValue,
}
use little_key_value_db.Storage.Store.{Serde}
use little_key_value_db.Storage.Iterator.Seek.{Entry}

abbrev pub time : ℕ → Timestamp
time wall_time = record { wall_time = wall_time; logical_time = 0 }

abbrev pub apple : Key
apple = 1 ∷ 2 ∷ []

abbrev pub banana : Key
banana = 3 ∷ []

abbrev pub cherry : Key
cherry = 4 ∷ []

abbrev pub version : Key → ℕ → Value → Entry
version key wall_time value = (record { key = key; timestamp = time wall_time }, value)

abbrev pub metadata : Uuid → ℕ → TxnMetadata
metadata txn_id wall_time = record { txn_id = txn_id; write_timestamp = time wall_time }

abbrev pub transaction : Uuid → ℕ → Txn
transaction txn_id wall_time = record {
  txn_id = txn_id;
  write_timestamp = time wall_time;
  read_timestamp = time wall_time;
  lock_spans = [];
  read_set = [];
}

abbrev pub uncommitted : Uuid → ℕ → Value → UncommittedValue
uncommitted txn_id wall_time value = record {
  value = value;
  txn_metadata = metadata txn_id wall_time;
}

abbrev pub read_value : Bytes → Option UncommittedValue
read_value (a ∷ b ∷ c ∷ value) = some (record {
  value = value;
  txn_metadata = record {
    txn_id = a;
    write_timestamp = record { wall_time = b; logical_time = c };
  };
})
read_value _ = none

abbrev pub values : Serde UncommittedValue
values = record {
  to_json = λ u.
      u.txn_metadata.txn_id ∷ u.txn_metadata.write_timestamp.wall_time
      ∷ u.txn_metadata.write_timestamp.logical_time ∷ u.value;
  from_slice = read_value;
  from_slice-to_json = λ u. refl;
}

abbrev pub status_byte : TransactionStatus → ℕ
status_byte pending = 0
status_byte committed = 1
status_byte aborted = 2

abbrev pub read_status : ℕ → TransactionStatus
read_status zero = pending
read_status (suc zero) = committed
read_status (suc (suc n)) = aborted

abbrev pub read_record : Bytes → Option TxnRecord
read_record (s ∷ a ∷ b ∷ c ∷ []) = some (record {
  status = read_status s;
  metadata = record { txn_id = a; write_timestamp = record { wall_time = b; logical_time = c } };
})
read_record _ = none

pub read_record-back :
    (s : TransactionStatus) (m : TxnMetadata)
    → read_record (
        status_byte s
        ∷ m.txn_id
        ∷ m.write_timestamp.wall_time
        ∷ m.write_timestamp.logical_time
        ∷ [])
      ≡ some (record { status = s; metadata = m })
read_record-back pending m = refl
read_record-back committed m = refl
read_record-back aborted m = refl

abbrev pub records : Serde TxnRecord
records = record {
  to_json = λ r.
      status_byte r.status
      ∷ r.metadata.txn_id
      ∷ r.metadata.write_timestamp.wall_time
      ∷ r.metadata.write_timestamp.logical_time
      ∷ [];
  from_slice = read_record;
  from_slice-to_json = λ r. read_record-back r.status r.metadata;
}

abbrev pub uuid_to_string : Uuid → Bytes
uuid_to_string txn_id = txn_id ∷ []
