-- ===== src/Storage/Mvcc/Write.antt =====
-- What the writing operations of src/storage/mvcc.rs leave in the store.
use little_key_value_db.Prelude.{
  ℕ, ◌+◌, ==_iff, ◌≡◌, ◌≢◌, ap, ◌∙◌, ◌⊎◌, inl, inr, true, false, Option, none, some, done, ◌>>=◌,
  ◌==◌, arith, Bool-cases, if◌then◌else◌,
}
use little_key_value_db.Hlc.Timestamp.{Timestamp, IsWord, IsVersion}
use little_key_value_db.Storage.Bytes.{Bytes, Key, Value, bytes_eq}
use little_key_value_db.Storage.Bytes.Order.{bytes_eq_refl, eq_of_bytes_eq}
use little_key_value_db.Storage.Key.{MvccKey, create_intent_key, to_string}
use little_key_value_db.Storage.Key.Codec.{eq_of_to_string}
use little_key_value_db.Storage.Txn.{
  Uuid, Txn, TxnMetadata, TxnRecord, pending, committed, aborted, UncommittedValue,
}
use little_key_value_db.Storage.Store.{
  Engine, Serde, mvcc, txn, delete_mvcc, put_raw_with_mvcc_key, put_serialized_with_mvcc_key,
  get_serialized_with_mvcc_key, get_serialized, get_transaction_record as read_record,
  put_transaction_record as write_record,
}
use little_key_value_db.Storage.Mvcc.{
  ok, write_intent_error, mvcc_put_raw, mvcc_get_uncommited_value, get_uncommitted_value,
  mvcc_resolve_intent, get_transaction_record, put_transaction_record, record_of,
  create_pending_transaction_record, commit_transaction_record, update_transaction_record_to_abort,
}

-- The key of an intent and the key of a version are stored under different names.
pub intent_name-ne :
    (key other : Key) (ts : Timestamp) (name vname : Bytes)
    → IsVersion ts
    → IsWord ts
    → to_string (create_intent_key other) ≡ some name
    → to_string (record { key = key; timestamp = ts }) ≡ some vname
    → bytes_eq vname name ≡ false
intent_name-ne key other ts name vname v w p q = elim (Bool-cases (bytes_eq vname name)) [
  | inr differ ↦ differ
  | inl same ↦
      let keys =
        eq_of_to_string (create_intent_key other) (record { key = key; timestamp = ts }) name
          (omega arith) w p (q ∙ ap some (eq_of_bytes_eq vname name same)) in
      absurd
        (omega (arith, ap (λ (k : MvccKey). k.timestamp.wall_time + k.timestamp.logical_time) keys))
]

ne_test : (a b : ℕ) → a ≢ b → (a == b) ≡ false
ne_test a b d = ground arith

module _ (e : Engine) (values : Serde UncommittedValue) where
  open e use {Db, get_cf, put_cf, delete_cf, get-put, get-delete}

  pub uncommitted-none :
      (key : MvccKey) (name : Bytes) (db : Db)
      → to_string key ≡ some name
      → get_cf mvcc name db ≡ none
      → get_uncommitted_value e values key db ≡ done none
  unfolding get_uncommitted_value get_serialized_with_mvcc_key
  uncommitted-none key name db p g = rw (p, ◌>>=◌, g, get_serialized)

  uncommitted-some :
      (key : MvccKey) (name : Bytes) (u : UncommittedValue) (db : Db)
      → to_string key ≡ some name
      → get_cf mvcc name db ≡ some (values.to_json u)
      → get_uncommitted_value e values key db ≡ done (some u)
  unfolding get_uncommitted_value get_serialized_with_mvcc_key
  uncommitted-some key name u db p g = rw (p, ◌>>=◌, g, get_serialized, values.from_slice-to_json u)

  -- Resolving an intent of the transaction moves its value to the version of the commit timestamp:
  -- the intent is gone, the version's name reads as the value, and every other pair is as it was. The
  -- names of the two keys are valid, and the commit timestamp is no intent timestamp and fits its
  -- words.
  pub resolve-own :
      (key : Key) (commit_timestamp : Timestamp) (txn_id : Uuid) (db : Db) (u : UncommittedValue)
      (name vname j : Bytes)
      → IsVersion commit_timestamp
      → IsWord commit_timestamp
      → to_string (create_intent_key key) ≡ some name
      → to_string (record { key = key; timestamp = commit_timestamp }) ≡ some vname
      → get_uncommitted_value e values (create_intent_key key) db ≡ done (some u)
      → u.txn_metadata.txn_id ≡ txn_id
      → (db' : Db) × (mvcc_resolve_intent e values key commit_timestamp txn_id db ≡ done db')
        × (get_uncommitted_value e values (create_intent_key key) db' ≡ done none)
        × (get_cf mvcc j db' ≡ (
            if bytes_eq vname j
            then some u.value
            else if bytes_eq name j
            then none
            else get_cf mvcc j db))
        × (get_cf txn j db' ≡ get_cf txn j db)
  unfolding mvcc_resolve_intent delete_mvcc put_raw_with_mvcc_key
  resolve-own key commit_timestamp txn_id db u name vname j v w p q g o =
      let db' = put_cf mvcc vname u.value (delete_cf mvcc name db) in
      let value =
        get-put mvcc mvcc vname j u.value (delete_cf mvcc name db)
        ∙ ap (λ r. if bytes_eq vname j then some u.value else r) (get-delete mvcc mvcc name j db) in
      let gone : get_cf mvcc name db' ≡ none = rw (
        get-put mvcc mvcc vname name u.value (delete_cf mvcc name db),
        intent_name-ne key key commit_timestamp name vname v w p q,
        get-delete mvcc mvcc name name db,
        bytes_eq_refl name,
      ) in
      (
        db',
        rw (g, ◌>>=◌, (==_iff u.txn_metadata.txn_id txn_id).1 o, p, q),
        uncommitted-none (create_intent_key key) name db' p gone,
        value,
        get-put mvcc txn vname j u.value (delete_cf mvcc name db) ∙ get-delete mvcc txn name j db,
      )

  -- Resolving leaves the store as it is where the key has no intent, and where its intent is another
  -- transaction's.
  pub resolve-other :
      (key : Key) (commit_timestamp : Timestamp) (txn_id : Uuid) (db : Db)
      (found : Option UncommittedValue)
      → get_uncommitted_value e values (create_intent_key key) db ≡ done found
      → (u : UncommittedValue)
      → (found ≡ none) ⊎ ((found ≡ some u) × (u.txn_metadata.txn_id ≢ txn_id))
      → mvcc_resolve_intent e values key commit_timestamp txn_id db ≡ done db
  unfolding mvcc_resolve_intent
  resolve-other key commit_timestamp txn_id db found g u (inl n) = rw (g, ◌>>=◌, n)
  resolve-other key commit_timestamp txn_id db found g u (inr (s, d)) =
      rw (g, ◌>>=◌, s, ne_test u.txn_metadata.txn_id txn_id d)

  module _ (records : Serde TxnRecord) (uuid_to_string : Uuid → Bytes) where
    -- A put of a transaction that meets the intent of another transaction, which is pending, changes
    -- nothing and reports that intent.
    pub put-conflict :
        (key : Key) (timestamp : Option Timestamp) (put_txn : Txn) (value : Value) (db : Db)
        (metadata : TxnMetadata) (found : TxnRecord)
        → mvcc_get_uncommited_value e values records uuid_to_string key db
          ≡ done (some (metadata, found))
        → metadata.txn_id ≢ put_txn.txn_id
        → found.status ≡ pending
        → mvcc_put_raw e values records uuid_to_string key timestamp (some put_txn) value db
          ≡ done (db, write_intent_error (record { txn_meta = metadata; key = key }))
    unfolding mvcc_put_raw
    put-conflict key timestamp put_txn value db metadata found g d s =
        rw (g, ◌>>=◌, ne_test metadata.txn_id put_txn.txn_id d, s)

    -- A put of a transaction that meets no intent, or its own, writes an intent: the intent reads back
    -- as the value with the transaction's id and write timestamp, every other pair is as it was, and
    -- the versioned key of the write is returned. The intent's name is valid.
    pub put-own :
        (key : Key) (timestamp : Option Timestamp) (t : Txn) (value : Value) (db : Db)
        (name j : Bytes) (found : Option (TxnMetadata × TxnRecord)) (m : TxnMetadata)
        (r : TxnRecord)
        → mvcc_get_uncommited_value e values records uuid_to_string key db ≡ done found
        → (found ≡ none) ⊎ ((found ≡ some (m, r)) × (m.txn_id ≡ t.txn_id))
        → to_string (create_intent_key key) ≡ some name
        → (db' : Db) × (mvcc_put_raw e values records uuid_to_string key timestamp (some t) value db
            ≡ done (db', ok (record { key = key; timestamp = t.write_timestamp })))
          × (get_uncommitted_value e values (create_intent_key key) db'
              ≡ done (
                  some (record {
                    value = value;
                    txn_metadata = record {
                      txn_id = t.txn_id;
                      write_timestamp = t.write_timestamp;
                    };
                  })))
          × (bytes_eq name j ≡ true ⊎ get_cf mvcc j db' ≡ get_cf mvcc j db)
          × (get_cf txn j db' ≡ get_cf txn j db)
    unfolding mvcc_put_raw put_serialized_with_mvcc_key
    put-own key timestamp t value db name j found m r g c p =
        let u : UncommittedValue = record {
          value = value;
          txn_metadata = record { txn_id = t.txn_id; write_timestamp = t.write_timestamp };
        } in
        let db' = put_cf mvcc name (values.to_json u) db in
        let self : get_cf mvcc name db' ≡ some (values.to_json u) =
          rw (get-put mvcc mvcc name name (values.to_json u) db, bytes_eq_refl name) in
        (
          db',
          runs c,
          uncommitted-some (create_intent_key key) name u db' p self,
          elim (Bool-cases (bytes_eq name j)) [
            | inl same ↦ inl same
            | inr other ↦ inr (rw (get-put mvcc mvcc name j (values.to_json u) db, other))
          ],
          get-put mvcc txn name j (values.to_json u) db,
        )
      where
        runs :
            (found ≡ none) ⊎ ((found ≡ some (m, r)) × (m.txn_id ≡ t.txn_id))
            → mvcc_put_raw e values records uuid_to_string key timestamp (some t) value db
              ≡ done (
                put_cf mvcc name
                    (values.to_json (record {
                      value = value;
                      txn_metadata = record {
                        txn_id = t.txn_id;
                        write_timestamp = t.write_timestamp;
                      };
                    }))
                    db,
                ok (record { key = key; timestamp = t.write_timestamp }),
              )
        runs (inl n) = rw (g, ◌>>=◌, n, p)
        runs (inr (s, o)) = rw (g, ◌>>=◌, s, (==_iff m.txn_id t.txn_id).1 o, p)

    reads_back :
        (txn_id other : Uuid) (r : TxnRecord) (db : Db)
        → get_transaction_record e values records uuid_to_string other
            (put_transaction_record e values records uuid_to_string txn_id r db)
          ≡ (if bytes_eq (uuid_to_string txn_id) (uuid_to_string other)
              then done (some r)
              else get_transaction_record e values records uuid_to_string other db)
    unfolding get_transaction_record put_transaction_record read_record write_record
    reads_back txn_id other r db =
        elim (Bool-cases (bytes_eq (uuid_to_string txn_id) (uuid_to_string other))) [
          | inl same ↦ rw (
            get-put txn txn (uuid_to_string txn_id) (uuid_to_string other) (records.to_json r) db,
            same,
            get_serialized,
            records.from_slice-to_json r,
          )
          | inr differ ↦ rw (
            get-put txn txn (uuid_to_string txn_id) (uuid_to_string other) (records.to_json r) db,
            differ,
            get_serialized,
          )
        ]

    -- A transaction record reads back as it was written last, with the status of the operation that
    -- wrote it, and the records under other names are as they were.
    pub record_round_trip :
        (txn_id other : Uuid) (ts : Timestamp) (db : Db)
        → (get_transaction_record e values records uuid_to_string other
              (create_pending_transaction_record e values records uuid_to_string txn_id ts db)
            ≡ (if bytes_eq (uuid_to_string txn_id) (uuid_to_string other)
                then done (
                    some (record {
                      status = pending;
                      metadata = record { txn_id = txn_id; write_timestamp = ts };
                    }))
                else get_transaction_record e values records uuid_to_string other db))
          × (get_transaction_record e values records uuid_to_string other
                (commit_transaction_record e values records uuid_to_string txn_id ts db)
              ≡ (if bytes_eq (uuid_to_string txn_id) (uuid_to_string other)
                  then done (
                      some (record {
                        status = committed;
                        metadata = record { txn_id = txn_id; write_timestamp = ts };
                      }))
                  else get_transaction_record e values records uuid_to_string other db))
          × (get_transaction_record e values records uuid_to_string other
                (update_transaction_record_to_abort e values records uuid_to_string txn_id ts db)
              ≡ (if bytes_eq (uuid_to_string txn_id) (uuid_to_string other)
                  then done (
                      some (record {
                        status = aborted;
                        metadata = record { txn_id = txn_id; write_timestamp = ts };
                      }))
                  else get_transaction_record e values records uuid_to_string other db))
    unfolding create_pending_transaction_record commit_transaction_record
        update_transaction_record_to_abort
    record_round_trip txn_id other ts db = (
      reads_back _ other (record_of pending txn_id ts) db,
      reads_back _ other (record_of committed txn_id ts) db,
      reads_back _ other (record_of aborted txn_id ts) db,
    )
