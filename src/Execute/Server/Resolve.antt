-- ===== src/Execute/Server/Resolve.antt =====
-- What the loops of src/execute/executor.rs and src/execute/request.rs over the keys of a transaction
-- that ends leave of its intents.
pub mod Loops
use little_key_value_db.Prelude.{
  ◌≡◌, refl, ap, ◌∙◌, ◌⊎◌, inl, inr, Bool, true, false, List, [], ◌∷◌, Option, none, some, Outcome,
  done, ◌>>=◌, All, ◌==◌, ==_iff, Bool-cases, if◌then◌else◌, arith,
}
use little_key_value_db.Hlc.Timestamp.{Timestamp, IsWord, IsVersion}
use little_key_value_db.Storage.Bytes.{Bytes, Key, bytes_eq}
use little_key_value_db.Storage.Bytes.Order.{bytes_eq_refl}
use little_key_value_db.Storage.Key.{MvccKey, create_intent_key, to_string}
use little_key_value_db.Storage.Txn.{Uuid, Txn, TxnRecord, UncommittedValue}
use little_key_value_db.Storage.Store.{
  Engine, Serde, mvcc, txn, delete_mvcc, put_raw_with_mvcc_key, get_serialized_with_mvcc_key,
  get_serialized,
}
use little_key_value_db.Storage.Mvcc.{mvcc_delete, get_uncommitted_value, mvcc_resolve_intent}
use little_key_value_db.Storage.Mvcc.Write.{intent_name-ne, uncommitted-none}
use little_key_value_db.Execute.Executor.{resolve_keys}
use little_key_value_db.Execute.Server.{delete_intents}

-- The intent's name and the name of the version at `ts` are valid.
abbrev pub IsNamed : Timestamp → Key → Type 0
IsNamed ts key =
    (name : Bytes) × (vname : Bytes) × (to_string (create_intent_key key) ≡ some name)
    × (to_string (record { key = key; timestamp = ts }) ≡ some vname)

-- The value that was found is the transaction's.
unfoldable pub is_own : Uuid → Option UncommittedValue → Bool
is_own txn_id none = false
is_own txn_id (some u) = u.txn_metadata.txn_id == txn_id

module _ (e : Engine) (values : Serde UncommittedValue) where
  open e use {Db, get_cf, put_cf, delete_cf, get-put, get-delete}

  -- The key has no intent, or one that reads.
  abbrev pub IsReadable : Db → Key → Type 0
  IsReadable db key =
      (found : Option UncommittedValue) × (get_uncommitted_value e values (create_intent_key key) db
        ≡ done found)

  -- The key has no intent.
  abbrev pub IsGone : Db → Key → Type 0
  IsGone db key = get_uncommitted_value e values (create_intent_key key) db ≡ done none

  -- The key has no intent, or another transaction's.
  abbrev pub IsResolved : Uuid → Db → Key → Type 0
  IsResolved txn_id db key =
      (found : Option UncommittedValue) × (get_uncommitted_value e values (create_intent_key key) db
        ≡ done found)
      × (is_own txn_id found ≡ false)

  -- Every intent is as it was or is gone, and no record changes.
  abbrev pub OnlyRemoves : Db → Db → Type 0
  OnlyRemoves db db' =
      ((key : Key) (name : Bytes)
        → to_string (create_intent_key key) ≡ some name
        → (get_cf mvcc name db' ≡ none) ⊎ (get_cf mvcc name db' ≡ get_cf mvcc name db))
      × ((j : Bytes) → get_cf txn j db' ≡ get_cf txn j db)

  pub same_value :
      (key : Key) (name : Bytes) (db db' : Db)
      → to_string (create_intent_key key) ≡ some name
      → get_cf mvcc name db' ≡ get_cf mvcc name db
      → get_uncommitted_value e values (create_intent_key key) db'
        ≡ get_uncommitted_value e values (create_intent_key key) db
  unfolding get_uncommitted_value get_serialized_with_mvcc_key get_serialized
  same_value key name db db' p g = rw (p, ◌>>=◌, get_serialized, g) refl

  -- What holds of a key before, or is true of a key without an intent, holds after.
  pub kept :
      (P : Option UncommittedValue → Type 0) (key : Key) (name : Bytes) (db db' : Db)
      → to_string (create_intent_key key) ≡ some name
      → OnlyRemoves db db'
      → P none
      → ((found : Option UncommittedValue) × (get_uncommitted_value e values
              (create_intent_key key)
              db
            ≡ done found)
          × P found)
      → (found : Option UncommittedValue) × (get_uncommitted_value e values
            (create_intent_key key)
            db'
          ≡ done found)
        × P found
  kept P key name db db' p o n (found, g, h) = elim (o.0 key name p) [
    | inl gone ↦ (none, uncommitted-none e values (create_intent_key key) name db' p gone, n)
    | inr same ↦ (found, same_value key name db db' p same ∙ g, h)
  ]

  pub OnlyRemoves-trans : (a b c : Db) → OnlyRemoves a b → OnlyRemoves b c → OnlyRemoves a c
  OnlyRemoves-trans a b c o q = (
    λ k n r. elim (q.0 k n r) [
      | inl gone ↦ inl gone
      | inr same ↦ elim (o.0 k n r) [
        | inl gone ↦ inl (same ∙ gone)
        | inr before ↦ inr (same ∙ before)
      ]
    ],
    λ j. q.1 j ∙ o.1 j,
  )

  pub kept-IsReadable :
      (ts : Timestamp) (keys : List Key) (db db' : Db)
      → OnlyRemoves db db'
      → All (IsNamed ts) keys
      → All (IsReadable db) keys
      → All (IsReadable db') keys
  kept-IsReadable ts [] db db' o n r = tt
  kept-IsReadable ts (key ∷ keys) db db' o ((name, vname, p, q), ns) ((found, g), rs) =
      let (found', g', t) = kept (λ f. Unit) key name db db' p o tt (found, g, tt) in
      ((found', g'), kept-IsReadable ts keys db db' o ns rs)

  pub kept-IsGone :
      (key name : Key) (db db' : Db)
      → to_string (create_intent_key key) ≡ some name
      → OnlyRemoves db db'
      → IsGone db key
      → IsGone db' key
  kept-IsGone key name db db' p o g = elim (o.0 key name p) [
    | inl gone ↦ uncommitted-none e values (create_intent_key key) name db' p gone
    | inr same ↦ same_value key name db db' p same ∙ g
  ]

  -- Writing a record changes no intent.
  pub IsReadable-after_record :
      (ts : Timestamp) (keys : List Key) (j v : Bytes) (db : Db)
      → All (IsNamed ts) keys
      → All (IsReadable db) keys
      → All (IsReadable (put_cf txn j v db)) keys
  IsReadable-after_record ts [] j v db n r = tt
  IsReadable-after_record ts (key ∷ keys) j v db ((name, vname, p, q), ns) ((found, g), rs) = (
    (found, same_value key name db (put_cf txn j v db) p (get-put txn mvcc j name v db) ∙ g),
    IsReadable-after_record ts keys j v db ns rs,
  )
