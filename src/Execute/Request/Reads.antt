-- ===== src/Execute/Request/Reads.antt =====
-- What a get request of src/execute/request.rs answers.
use little_key_value_db.Prelude.{
  ◌≡◌, ap, true, false, List, ◌∷◌, none, some, done, ◌>>=◌, if◌then◌else◌, ◌==◌,
}
use little_key_value_db.Storage.Bytes.{Key}
use little_key_value_db.Storage.Key.{is_intent_key, create_intent_key}
use little_key_value_db.Storage.Txn.{Txn, UncommittedValue, append_read_sets}
use little_key_value_db.Storage.Iterator.{at_most}
use little_key_value_db.Storage.Iterator.Seek.{Entry, raws}
use little_key_value_db.Storage.Scanner.Get.{visible}
use little_key_value_db.Storage.Scanner.Latest.{IsListing, listing}
use little_key_value_db.Storage.Store.{Engine, Serde, mvcc}
use little_key_value_db.Storage.Mvcc.{first}
use little_key_value_db.Storage.Mvcc.Read.{mvcc_get-latest, mvcc_get-intent}
use little_key_value_db.Execute.Request.{execute_get, get_response, got, intent_in_the_way}

module _ (e : Engine) (values : Serde UncommittedValue) where
  open e use {Db, iterator_cf}

  -- A get of a key with versions and no intent answers with the first listed version at or before the
  -- read timestamp, or with nothing where there is none, and records the key as read. The store lists
  -- entries of earlier keys, then those of the key, of which `v` is the first, then those of later
  -- keys, with times that fit their words.
  pub execute_get-latest :
      (key : Key) (t : Txn) (db : Db) (pre : List Entry) (v : Entry) (block post : List Entry)
      → iterator_cf mvcc db ≡ raws (listing pre v block post)
      → IsListing key pre v block post
      → is_intent_key v.0 ≡ false
      → execute_get e values key t db
        ≡ done (append_read_sets t key, got (first (visible t.read_timestamp (v ∷ block))))
  unfolding execute_get
  execute_get-latest key t db pre v block post l s n =
      ap (λ o. o >>= λ r. done (get_response key t r))
        (mvcc_get-latest e values key t.read_timestamp (some t) db pre v block post l s n)

  -- A get of a key with an intent answers with the intent's value if it is the transaction's own, and
  -- with the conflict, recording no read, if it is another transaction's and not after the read
  -- timestamp. With a later intent of another transaction it answers that the key has no value, also
  -- where it has committed versions. The store lists entries of earlier keys, then those of the key,
  -- first its intent `v`, then those of later keys, with times that fit their words, and the intent's
  -- bytes are those of an uncommitted value.
  pub execute_get-intent :
      (key : Key) (t : Txn) (db : Db) (pre : List Entry) (v : Entry) (block post : List Entry)
      (u : UncommittedValue)
      → iterator_cf mvcc db ≡ raws (listing pre v block post)
      → IsListing key pre v block post
      → is_intent_key v.0 ≡ true
      → values.from_slice v.1 ≡ some u
      → execute_get e values key t db
        ≡ done (
            if t.txn_id == u.txn_metadata.txn_id
            then (append_read_sets t key, got (some (create_intent_key key, u.value)))
            else if at_most u.txn_metadata.write_timestamp t.read_timestamp
            then (t, intent_in_the_way (record { txn_meta = u.txn_metadata; key = v.0.key }))
            else (append_read_sets t key, got none))
  unfolding execute_get get_response
  execute_get-intent key t db pre v block post u l s n d =
      ap (λ o. o >>= λ r. done (get_response key t r))
        (mvcc_get-intent e values key t.read_timestamp (some t) db pre v block post u l s n d)
