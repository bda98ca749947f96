-- ===== src/Execute/Server/Resolve/Loops.antt =====
-- The loops of src/execute/executor.rs and src/execute/request.rs over the keys of a transaction that
-- ends.
use little_key_value_db.Prelude.{
  ◌≡◌, refl, ◌∙◌, inl, inr, false, List, [], ◌∷◌, none, some, done, ◌>>=◌, All, ◌==◌, Bool-cases,
}
use little_key_value_db.Hlc.Timestamp.{Timestamp, IsWord, IsVersion}
use little_key_value_db.Storage.Bytes.{Bytes, Key, bytes_eq}
use little_key_value_db.Storage.Bytes.Order.{bytes_eq_refl}
use little_key_value_db.Storage.Key.{create_intent_key, to_string}
use little_key_value_db.Storage.Txn.{Uuid, Txn, TxnRecord, UncommittedValue}
use little_key_value_db.Storage.Store.{Engine, Serde, mvcc, txn, delete_mvcc, put_raw_with_mvcc_key}
use little_key_value_db.Storage.Mvcc.{mvcc_delete, mvcc_resolve_intent}
use little_key_value_db.Storage.Mvcc.Write.{intent_name-ne, uncommitted-none}
use little_key_value_db.Execute.Executor.{resolve_keys}
use little_key_value_db.Execute.Server.{delete_intents}
use little_key_value_db.Execute.Server.Resolve.{
  IsNamed, is_own, IsReadable, IsGone, IsResolved, OnlyRemoves, kept, OnlyRemoves-trans,
  kept-IsReadable, kept-IsGone,
}

module _ (e : Engine) (values : Serde UncommittedValue) where
  open e use {Db, get_cf, put_cf, delete_cf, get-put, get-delete}

  OnlyRemoves-delete : (name : Bytes) (db : Db) → OnlyRemoves e values db (delete_cf mvcc name db)
  OnlyRemoves-delete name db = (
    λ k n r. elim (Bool-cases (bytes_eq name n)) [
      | inl same ↦ inl (rw (get-delete mvcc mvcc name n db, same) refl)
      | inr other ↦ inr (rw (get-delete mvcc mvcc name n db, other) refl)
    ],
    λ j. get-delete mvcc txn name j db,
  )

  -- The two writes of an intent that is resolved.
  moves :
      (key : Key) (name vname : Bytes) (ts : Timestamp) (value : Bytes) (db : Db)
      → IsVersion ts
      → IsWord ts
      → to_string (create_intent_key key) ≡ some name
      → to_string (record { key = key; timestamp = ts }) ≡ some vname
      → (get_cf mvcc name (put_cf mvcc vname value (delete_cf mvcc name db)) ≡ none)
        × OnlyRemoves e values db (put_cf mvcc vname value (delete_cf mvcc name db))
  moves key name vname ts value db v w p q =
      let deleted = delete_cf mvcc name db in
      let others = OnlyRemoves-delete name db in
      let unmoved : (k : Key) (n : Bytes)
          → to_string (create_intent_key k) ≡ some n
          → get_cf mvcc n (put_cf mvcc vname value deleted) ≡ get_cf mvcc n deleted =
        λ k n r.
          rw (get-put mvcc mvcc vname n value deleted, intent_name-ne key k ts n vname v w r q)
            refl in
      (
        unmoved key name p ∙ rw (get-delete mvcc mvcc name name db, bytes_eq_refl name) refl,
        (
          λ k n r. elim (others.0 k n r) [
            | inl gone ↦ inl (unmoved k n r ∙ gone)
            | inr same ↦ inr (unmoved k n r ∙ same)
          ],
          λ j. get-put mvcc txn vname j value deleted ∙ others.1 j,
        ),
      )

  -- One call of `mvcc_resolve_intent`.
  resolve_one :
      (key : Key) (ts : Timestamp) (txn_id : Uuid) (db : Db)
      → IsVersion ts
      → IsWord ts
      → IsNamed ts key
      → IsReadable e values db key
      → (db' : Db) × (mvcc_resolve_intent e values key ts txn_id db ≡ done db')
        × IsResolved e values txn_id db' key
        × OnlyRemoves e values db db'
  unfolding mvcc_resolve_intent is_own delete_mvcc put_raw_with_mvcc_key
  resolve_one key ts txn_id db v w (name, vname, p, q) (none, g) =
      (db, rw (g, ◌>>=◌) refl, (none, g, refl), (λ k n r. inr refl, λ j. refl))
  resolve_one key ts txn_id db v w (name, vname, p, q) (some u, g) =
      elim (Bool-cases (u.txn_metadata.txn_id == txn_id)) [
        | inr other ↦
            (db, rw (g, ◌>>=◌, other) refl, (some u, g, other), (λ k n r. inr refl, λ j. refl))
        | inl own ↦
            let moved = moves key name vname ts u.value db v w p q in
            (
              put_cf mvcc vname u.value (delete_cf mvcc name db),
              rw (g, ◌>>=◌, own, p, q) refl,
              (none, uncommitted-none e values (create_intent_key key) name _ p moved.0, refl),
              moved.1,
            )
      ]

  -- The loop of `resolve_intents_for_txn` ends and leaves no intent of the transaction on its keys: it
  -- only removes intents, and changes no record. The intents on the keys read, the names of the
  -- intents and of the versions are valid, and the write timestamp is no intent timestamp and fits its
  -- words.
  pub resolve_keys_lem :
      (keys : List Key) (t : Txn) (db : Db)
      → IsVersion t.write_timestamp
      → IsWord t.write_timestamp
      → All (IsNamed t.write_timestamp) keys
      → All (IsReadable e values db) keys
      → (db' : Db) × (resolve_keys e values keys t db ≡ done db')
        × All (IsResolved e values t.txn_id db') keys
        × OnlyRemoves e values db db'
  unfolding resolve_keys is_own
  resolve_keys_lem [] t db v w n r = (db, refl, tt, (λ k j p. inr refl, λ j. refl))
  resolve_keys_lem (key ∷ keys) t db v w ((name, vname, p, q), ns) (r, rs) =
      let (db1, run, clean, removed) =
        resolve_one key t.write_timestamp t.txn_id db v w (name, vname, p, q) r in
      let (db2, rest, cleans, removes) =
        resolve_keys_lem keys t db1 v w ns
          (kept-IsReadable e values t.write_timestamp keys db db1 removed ns rs) in
      (
        db2,
        rw (run, ◌>>=◌) rest,
        (
          kept e values (λ f. is_own t.txn_id f ≡ false) key name db1 db2 p removes refl clean,
          cleans,
        ),
        OnlyRemoves-trans e values db db1 db2 removed removes,
      )

  module _ (records : Serde TxnRecord) (uuid_to_string : Uuid → Bytes) where
    -- The loop of `AbortTxnRequest::execute` ends and leaves no intent on its keys, whoever wrote it: it
    -- only removes intents, and changes no record. The names of the intents are valid.
    pub delete_intents_lem :
        (keys : List Key) (ts : Timestamp) (db : Db)
        → All (IsNamed ts) keys
        → (db' : Db) × (delete_intents e values records uuid_to_string keys db ≡ done db')
          × All (IsGone e values db') keys
          × OnlyRemoves e values db db'
    unfolding delete_intents mvcc_delete delete_mvcc
    delete_intents_lem [] ts db n = (db, refl, tt, (λ k j p. inr refl, λ j. refl))
    delete_intents_lem (key ∷ keys) ts db ((name, vname, p, q), ns) =
        let db1 = delete_cf mvcc name db in
        let removed = OnlyRemoves-delete name db in
        let gone =
          uncommitted-none e values (create_intent_key key) name db1 p
            (rw (get-delete mvcc mvcc name name db, bytes_eq_refl name) refl) in
        let (db2, rest, all_gone, removes) = delete_intents_lem keys ts db1 ns in
        (
          db2,
          rw (p, ◌>>=◌) rest,
          (kept-IsGone e values key name db1 db2 p removes gone, all_gone),
          OnlyRemoves-trans e values db db1 db2 removed removes,
        )
