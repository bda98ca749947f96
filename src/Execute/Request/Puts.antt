-- ===== src/Execute/Request/Puts.antt =====
-- What a put request of src/execute/request.rs leaves.
use little_key_value_db.Prelude.{
  ◌≡◌, refl, ap, ◌∙◌, ◌⊎◌, false, true, Option, none, some, Outcome, done, panicked, unfinished,
  ◌>>=◌, if◌then◌else◌, arith, ◌≢◌,
}
use little_key_value_db.Storage.Bytes.{Bytes, Key, Value, bytes_eq}
use little_key_value_db.Storage.Bytes.Order.{bytes_eq_refl}
use little_key_value_db.Storage.Key.{create_intent_key, to_string}
use little_key_value_db.Storage.Txn.{
  Uuid, Txn, TxnMetadata, TxnRecord, UncommittedValue, pending, contains, append_lock_span,
  to_txn_metadata,
}
use little_key_value_db.Storage.Txn.Laws.{contains-snoc_self}
use little_key_value_db.Storage.Store.{Engine, Serde}
use little_key_value_db.Storage.Mvcc.{get_uncommitted_value, mvcc_get_uncommited_value}
use little_key_value_db.Storage.Mvcc.Write.{put-own, put-conflict}
use little_key_value_db.LockTable.Guard.{Heap, TxnLink, set_txn}
use little_key_value_db.LockTable.State.{LockState}
use little_key_value_db.LockTable.Table.{Locks, get_lock_state, acquire_lock, state_or_new}
use little_key_value_db.LockTable.Table.Locks.{acquire_lock_lem, is_taken}
use little_key_value_db.Execute.Request.{execute_put, stored, intent_in_the_way}

-- A call that returns a part of its result has returned that result.
returned :
    (o : Outcome Locks) (f : Locks → Option LockState) (b : Option LockState)
    → (o >>= λ l. done (f l)) ≡ done b
    → (l : Locks) × (o ≡ done l) × (f l ≡ b)
returned (done l) f b h = (l, refl, ground arith)
returned panicked f b h = absurd (ground arith)
returned unfinished f b h = absurd (ground arith)

-- The lock of a key after the transaction has acquired it.
abbrev pub held_by : Txn → LockState → LockState
held_by t s = record s { lock_holder = some (to_txn_metadata t); reservation = none }

acquired :
    (key : Key) (txn : TxnLink) (h : Heap) (locks : Locks)
    → is_taken key (h.txns txn).txn_id h locks ≡ false
    → (l : Locks) × (acquire_lock key txn h locks ≡ done l)
      × (get_lock_state key l ≡ some (held_by (h.txns txn) (state_or_new key locks)))
acquired key txn h locks n = returned _ (get_lock_state key) _ (
    acquire_lock_lem key key txn h locks
    ∙ ap
        (λ b.
          if b
          then panicked
          else done (
              if bytes_eq key key
              then some (held_by (h.txns txn) (state_or_new key locks))
              else get_lock_state key locks))
        n
    ∙ ap
        (λ b. done (
          if b
          then some (held_by (h.txns txn) (state_or_new key locks))
          else get_lock_state key locks))
        (bytes_eq_refl key))

append_lock_span-contains :
    (t : Txn) (key : Key) → contains (append_lock_span t key).lock_spans key ≡ true
unfolding append_lock_span
append_lock_span-contains t key = ground (arith, contains-snoc_self t.lock_spans key)

module _ (e : Engine) (values : Serde UncommittedValue) (records : Serde TxnRecord)
    (uuid_to_string : Uuid → Bytes) where
  open e use {Db}

  -- A put that meets no intent, or its own, of a key whose lock no other transaction holds or has
  -- reserved, returns: the intent reads back with the value and the transaction's id and write
  -- timestamp, the transaction holds the lock, and the key is among the keys that it will resolve. The
  -- intent's name is valid.
  pub execute_put-own :
      (key : Key) (value : Value) (txn : TxnLink) (db : Db) (h : Heap) (locks : Locks)
      (name : Bytes) (found : Option (TxnMetadata × TxnRecord)) (m : TxnMetadata) (r : TxnRecord)
      → mvcc_get_uncommited_value e values records uuid_to_string key db ≡ done found
      → (found ≡ none) ⊎ ((found ≡ some (m, r)) × (m.txn_id ≡ (h.txns txn).txn_id))
      → to_string (create_intent_key key) ≡ some name
      → is_taken key (h.txns txn).txn_id h locks ≡ false
      → (db' : Db) × (h' : Heap) × (locks' : Locks) × (execute_put e values records uuid_to_string
            key value txn db h locks
          ≡ done (db', h', locks', stored))
        × (get_uncommitted_value e values (create_intent_key key) db'
            ≡ done (some (record { value = value; txn_metadata = to_txn_metadata (h.txns txn) })))
        × (get_lock_state key locks' ≡ some (held_by (h.txns txn) (state_or_new key locks)))
        × (contains (h'.txns txn).lock_spans key ≡ true)
  unfolding execute_put
  execute_put-own key value txn db h locks name found m r g c p n =
      let (db', run, kept, others, records') =
        put-own e values records uuid_to_string key none (h.txns txn) value db name name found m r g
          c p in
      let (locks', lock_run, lock) = acquired key txn h locks n in
      (
        db',
        set_txn txn (append_lock_span (h.txns txn) key) h,
        locks',
        rw (run, ◌>>=◌, lock_run),
        kept,
        lock,
        ground (arith, append_lock_span-contains (h.txns txn) key),
      )

  -- A put that meets the pending intent of another transaction answers with that intent and leaves
  -- the store, the transactions and the lock table as they were.
  pub execute_put-conflict :
      (key : Key) (value : Value) (txn : TxnLink) (db : Db) (h : Heap) (locks : Locks)
      (metadata : TxnMetadata) (found : TxnRecord)
      → mvcc_get_uncommited_value e values records uuid_to_string key db
        ≡ done (some (metadata, found))
      → metadata.txn_id ≢ (h.txns txn).txn_id
      → found.status ≡ pending
      → execute_put e values records uuid_to_string key value txn db h locks
        ≡ done (db, h, locks, intent_in_the_way (record { txn_meta = metadata; key = key }))
  unfolding execute_put
  execute_put-conflict key value txn db h locks metadata found g d s = rw (
    put-conflict e values records uuid_to_string key none (h.txns txn) value db metadata found g d
        s,
    ◌>>=◌,
  )
