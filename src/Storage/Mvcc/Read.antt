-- ===== src/Storage/Mvcc/Read.antt =====
-- What `mvcc_get` of src/storage/mvcc.rs returns.
use little_key_value_db.Prelude.{◌≡◌, true, false, List, [], ◌∷◌, Option, none, some, done, ◌>>=◌}
use little_key_value_db.Hlc.Timestamp.{Timestamp}
use little_key_value_db.Storage.Bytes.{Key}
use little_key_value_db.Storage.Key.{is_intent_key}
use little_key_value_db.Storage.Txn.{Txn, UncommittedValue}
use little_key_value_db.Storage.Store.{Engine, Serde, mvcc}
use little_key_value_db.Storage.Iterator.Seek.{Entry, raws, AreWords, last_or}
use little_key_value_db.Storage.Iterator.{at_most}
use little_key_value_db.Storage.Scanner.Absent.{scan-absent}
use little_key_value_db.Storage.Scanner.Get.{visible}
use little_key_value_db.Storage.Scanner.Found.{Finds, AreBefore}
use little_key_value_db.Storage.Scanner.Latest.{IsListing, listing, scan-latest, scan-intent}
use little_key_value_db.Storage.Mvcc.{mvcc_scan, mvcc_get, first}
use little_key_value_db.Storage.Txn.{TxnIntent}

module _ (e : Engine) (values : Serde UncommittedValue) where
  open e use {Db, iterator_cf}

  mvcc_get-Finds :
      (key : Key) (ts : Timestamp) (txn : Option Txn) (db : Db) (es results : List Entry)
      (intents : List (TxnIntent × _))
      → iterator_cf mvcc db ≡ raws es
      → Finds values txn key ts es results intents
      → mvcc_get e values key ts txn db
        ≡ done (record { value = first results; intent = first intents })
  unfolding mvcc_get mvcc_scan
  mvcc_get-Finds key ts txn db es results intents l (s, p, r, i) = rw (l, p, ◌>>=◌, r, i)

  -- A read of a key that has versions and no intent returns, reports no intent, and gives the first
  -- listed version at or before the timestamp, or nothing where all versions are later. The store
  -- lists entries of earlier keys, then those of the key, of which `v` is the first, then those of
  -- later keys, with times that fit their words.
  pub mvcc_get-latest :
      (key : Key) (ts : Timestamp) (txn : Option Txn) (db : Db) (pre : List Entry) (v : Entry)
      (block post : List Entry)
      → iterator_cf mvcc db ≡ raws (listing pre v block post)
      → IsListing key pre v block post
      → is_intent_key v.0 ≡ false
      → mvcc_get e values key ts txn db
        ≡ done (record { value = first (visible ts (v ∷ block)); intent = none })
  mvcc_get-latest key ts txn db pre v block post l s n =
      mvcc_get-Finds key ts txn db _ _ [] l (scan-latest values txn key ts pre v block post s n)

  -- A read of a key that has an intent returns, reports that intent, and gives no version, also
  -- where the key has a committed version at or before the timestamp. The store lists entries of
  -- earlier keys, then those of the key, first its intent `v`, then those of later keys, with times
  -- that fit their words, and the intent's bytes are those of an uncommitted value.
  pub mvcc_get-intent :
      (key : Key) (ts : Timestamp) (txn : Option Txn) (db : Db) (pre : List Entry) (v : Entry)
      (block post : List Entry) (u : UncommittedValue)
      → iterator_cf mvcc db ≡ raws (listing pre v block post)
      → IsListing key pre v block post
      → is_intent_key v.0 ≡ true
      → values.from_slice v.1 ≡ some u
      → mvcc_get e values key ts txn db
        ≡ done (record {
          value = none;
          intent = some (record { txn_meta = u.txn_metadata; key = v.0.key }, u.value);
        })
  mvcc_get-intent key ts txn db pre v block post u l s n d =
      mvcc_get-Finds key ts txn db _ [] _ l (scan-intent values txn key ts pre v block post u s n d)

  -- A read of a key that the store does not hold returns the last entry of the store, which is of
  -- another key, if all entries are of earlier keys and the last is a version at or before the
  -- timestamp. Times fit their words.
  pub mvcc_get-absent :
      (key : Key) (ts : Timestamp) (txn : Option Txn) (db : Db) (c : Entry) (cs : List Entry)
      → iterator_cf mvcc db ≡ raws (c ∷ cs)
      → AreWords (c ∷ cs)
      → AreBefore key (c ∷ cs)
      → is_intent_key (last_or c cs).0 ≡ false
      → at_most (last_or c cs).0.timestamp ts ≡ true
      → mvcc_get e values key ts txn db
        ≡ done (record { value = some (last_or c cs); intent = none })
  mvcc_get-absent key ts txn db c cs l w b n h =
      mvcc_get-Finds key ts txn db (c ∷ cs) _ [] l (scan-absent values txn key ts c cs w b n h)
