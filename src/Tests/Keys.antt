-- ===== src/Tests/Keys.antt =====
-- Encoded versioned keys and their comparator.
use little_key_value_db.Prelude.{panicked, [], ◌∷◌, ◌≡◌, some, [], ◌∷◌, arith}
use little_key_value_db.Storage.Bytes.{Bytes}
use little_key_value_db.Storage.Key.{MvccKey, encode_mvcc_key, decode_mvcc_key}
use little_key_value_db.Storage.Key.Codec.{decode_mvcc_key-encode}
use little_key_value_db.Storage.Store.{
  compare, put_raw_with_mvcc_key, put_serialized_with_mvcc_key, get_serialized_with_mvcc_key,
  delete_mvcc,
}
use little_key_value_db.Storage.Store.Memory.{memory, MemoryDb}
use little_key_value_db.Storage.Store.Names.{versions_without_names}
use little_key_value_db.Storage.Store.Compare.{compare-encode, version_order}
use little_key_value_db.Tests.Data.{apple, banana, time, values, uncommitted}

abbrev empty : MemoryDb
empty = record { versions = []; records = [] }

abbrev newer : MvccKey
newer = record { key = apple; timestamp = time 9 }

abbrev older : MvccKey
older = record { key = apple; timestamp = time 4 }

abbrev other : MvccKey
other = record { key = banana; timestamp = time 200 }

decode_mvcc_key-encode_example : decode_mvcc_key (encode_mvcc_key other) ≡ some other
decode_mvcc_key-encode_example = decode_mvcc_key-encode other (omega arith, omega arith)

-- The encoding of `other`, byte by byte.
abbrev stored : Bytes
stored = 3 ∷ 200 ∷ 0 ∷ 0 ∷ 0 ∷ 0 ∷ 0 ∷ 0 ∷ 0 ∷ 0 ∷ 0 ∷ 0 ∷ 0 ∷ b'm' ∷ b'v' ∷ b'c' ∷ b'c' ∷ []

versions_without_names_example :
    (put_raw_with_mvcc_key memory other (5 ∷ []) empty ≡ panicked)
    × (put_serialized_with_mvcc_key memory values other (uncommitted 7 9 []) empty ≡ panicked)
    × (get_serialized_with_mvcc_key memory values other empty ≡ panicked)
    × (delete_mvcc memory other empty ≡ panicked)
versions_without_names_example =
    versions_without_names memory values other (5 ∷ []) (uncommitted 7 9 []) empty (omega arith)
      (omega arith) (omega arith)

compare-encode_example :
    compare (encode_mvcc_key newer) (encode_mvcc_key older) ≡ version_order newer older
compare-encode_example =
    compare-encode newer older (omega arith, omega arith) (omega arith, omega arith)
