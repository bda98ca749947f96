-- ===== src/Storage/Store/Names.antt =====
-- When the operations of src/storage/storage.rs on a version have no name for it.
use little_key_value_db.Prelude.{◌%◌, ◌/◌, ◌≤◌, ◌<◌, ◌≡◌, refl, panicked}
use little_key_value_db.Storage.Bytes.{Value}
use little_key_value_db.Storage.Bytes.Utf8.{IsAscii}
use little_key_value_db.Storage.Key.{MvccKey}
use little_key_value_db.Storage.Key.Codec.{to_string_panics}
use little_key_value_db.Storage.Store.{
  Engine, Serde, put_raw_with_mvcc_key, put_serialized_with_mvcc_key, get_serialized_with_mvcc_key,
  delete_mvcc,
}

module _ (e : Engine) {A : Type 0} (serde : Serde A) where
  open e use {Db}

  -- Writing, reading and deleting a version by its key panic, on every store, if the key is ASCII and the
  -- lowest byte of the wall time but not the next one has the high bit.
  pub versions_without_names :
      (k : MvccKey) (value : Value) (a : A) (db : Db)
      → IsAscii k.key
      → 128 ≤ k.timestamp.wall_time % 256
      → k.timestamp.wall_time / 256 % 256 < 128
      → (put_raw_with_mvcc_key e k value db ≡ panicked)
        × (put_serialized_with_mvcc_key e serde k a db ≡ panicked)
        × (get_serialized_with_mvcc_key e serde k db ≡ panicked)
        × (delete_mvcc e k db ≡ panicked)
  unfolding put_raw_with_mvcc_key put_serialized_with_mvcc_key get_serialized_with_mvcc_key
      delete_mvcc
  versions_without_names k value a db ascii high low =
      let nameless = to_string_panics k ascii high low in
      (rw (nameless) refl, rw (nameless) refl, rw (nameless) refl, rw (nameless) refl)
