-- ===== src/Storage/Store.antt =====
-- src/storage/storage.rs: the order of stored keys, and the calls of the RocksDB handle. RocksDB and
-- serde_json are parameters: an engine with the two column families, and a serialisation for each
-- type that is stored. The engine does not fail: its I/O errors are left out.
pub mod Compare
pub mod Memory
pub mod Names
use little_key_value_db.Prelude.{
  ℕ, Ordering, lt, eq, gt, Bool, true, false, ◌≡◌, List, [], ◌∷◌, Option, none, some, Outcome, done,
  panicked, ◌>>=◌, unwrap, if◌then◌else◌,
}
use little_key_value_db.Hlc.Timestamp
use little_key_value_db.Storage.Bytes.{Bytes, Value, bytes_cmp, bytes_eq}
use little_key_value_db.Storage.Key.{MvccKey, decode_mvcc_key, is_intent_key, to_string}
use little_key_value_db.Storage.Txn.{Uuid, TxnRecord, UncommittedValue}

-- The comparison of two decoded keys.
unfoldable pub compare_decoded : MvccKey → MvccKey → Ordering
unfolding is_intent_key
compare_decoded first second = elim (bytes_cmp first.key second.key) [
  | lt ↦ lt
  | eq ↦
      if is_intent_key first
      then (if is_intent_key second then eq else lt)
      else if is_intent_key second
      then gt
      else Timestamp.cmp second.timestamp first.timestamp
  | gt ↦ gt
]

-- `Storage::compare`, the comparator "mvcc_ordering"
unfoldable pub compare : Bytes → Bytes → Ordering
compare first second = elim (decode_mvcc_key first) [
  | none ↦ bytes_cmp first second
  | some first_mvcc ↦ elim (decode_mvcc_key second) [
    | none ↦ bytes_cmp first second
    | some second_mvcc ↦ compare_decoded first_mvcc second_mvcc
  ]
]

-- MVCC_COLUMN_FAMILY and TRANSACTION_RECORD_COLUMN_FAMILY
pub data ColumnFamily : Type 0 where
  mvcc txn : ColumnFamily

abbrev pub same_family : ColumnFamily → ColumnFamily → Bool
same_family mvcc mvcc = true
same_family mvcc txn = false
same_family txn mvcc = false
same_family txn txn = true

-- The value that a listing pairs with a key.
unfoldable pub find : Bytes → List (Bytes × Bytes) → Option Bytes
find key [] = none
find key ((k, v) ∷ rest) = if bytes_eq k key then some v else find key rest

-- What the code uses of RocksDB: a map for each column family, read back and listed in the order of
-- the comparator. Reads see the writes, in their own family and at their own key.
pub record Engine : Type 1 where
  pub Db : Type 0
  pub get_cf : ColumnFamily → Bytes → Db → Option Bytes
  pub put_cf : ColumnFamily → Bytes → Bytes → Db → Db
  pub delete_cf : ColumnFamily → Bytes → Db → Db
  pub iterator_cf : ColumnFamily → Db → List (Bytes × Bytes)
  pub get-put :
      (f g : ColumnFamily) (k j v : Bytes) (d : Db)
      → get_cf g j (put_cf f k v d) ≡ (
          if same_family f g then (if bytes_eq k j then some v else get_cf g j d) else get_cf g j d)
  pub get-delete :
      (f g : ColumnFamily) (k j : Bytes) (d : Db)
      → get_cf g j (delete_cf f k d)
        ≡ (if same_family f g then (if bytes_eq k j then none else get_cf g j d) else get_cf g j d)

-- serde_json for one type: what is written reads back.
pub record Serde (A : Type 0) : Type 0 where
  pub to_json : A → Bytes
  pub from_slice : Bytes → Option A
  pub from_slice-to_json : (a : A) → from_slice (to_json a) ≡ some a

module _ (e : Engine) where
  open e use {Db, get_cf, put_cf, delete_cf}

  unfoldable pub put_raw : ColumnFamily → Bytes → Value → Db → Db
  put_raw cf key value db = put_cf cf key value db

  unfoldable pub delete : ColumnFamily → Bytes → Db → Db
  delete cf key db = delete_cf cf key db

  unfoldable pub delete_mvcc : MvccKey → Db → Outcome Db
  unfolding delete
  delete_mvcc key db = do name ← unwrap (to_string key); done (delete mvcc name db)

  unfoldable pub put_serialized : {A : Type 0} → Serde A → ColumnFamily → Bytes → A → Db → Db
  unfolding put_raw
  put_serialized s cf key value db = put_raw cf key (s.to_json value) db

  unfoldable pub put_raw_with_mvcc_key : MvccKey → Value → Db → Outcome Db
  unfolding put_raw
  put_raw_with_mvcc_key key value db = do
    name ← unwrap (to_string key)
    done (put_raw mvcc name value db)

  unfoldable pub put_serialized_with_mvcc_key :
      {A : Type 0} → Serde A → MvccKey → A → Db → Outcome Db
  unfolding put_serialized
  put_serialized_with_mvcc_key s key value db = do
    name ← unwrap (to_string key)
    done (put_serialized s mvcc name value db)

  unfoldable pub get_serialized :
      {A : Type 0} → Serde A → ColumnFamily → Bytes → Db → Outcome (Option A)
  get_serialized s cf key db = elim (get_cf cf key db) [
    | none ↦ done none
    | some value ↦ elim (s.from_slice value) [ none ↦ panicked | some a ↦ done (some a) ]
  ]

  unfoldable pub get_serialized_with_mvcc_key :
      {A : Type 0} → Serde A → MvccKey → Db → Outcome (Option A)
  unfolding get_serialized
  get_serialized_with_mvcc_key s key db = do
    name ← unwrap (to_string key)
    get_serialized s mvcc name db

  -- The parameter `uuid_to_string` is `Uuid::to_string`.
  unfoldable pub get_transaction_record :
      Serde TxnRecord → (Uuid → Bytes) → Uuid → Db → Outcome (Option TxnRecord)
  unfolding get_serialized
  get_transaction_record s uuid_to_string txn_id db =
      get_serialized s txn (uuid_to_string txn_id) db

  unfoldable pub put_transaction_record :
      Serde TxnRecord → (Uuid → Bytes) → Uuid → TxnRecord → Db → Db
  unfolding put_serialized
  put_transaction_record s uuid_to_string txn_id txn_record db =
      put_serialized s txn (uuid_to_string txn_id) txn_record db
