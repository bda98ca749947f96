-- ===== src/Tests/Writes.antt =====
-- Writes to a store in memory.
use little_key_value_db.Prelude.{◌≡◌, refl, [], ◌∷◌, none, some, done, arith, if◌then◌else◌}
use little_key_value_db.Storage.Bytes.{Bytes, bytes_eq, is_utf8, utf8_continues, utf8_lead}
use little_key_value_db.Storage.Key.{create_intent_key, encode_mvcc_key, to_string}
use little_key_value_db.Storage.Txn.{pending}
use little_key_value_db.Storage.Store.{mvcc, txn, get_serialized_with_mvcc_key}
use little_key_value_db.Storage.Store.Memory.{memory, MemoryDb, insert, remove}
use little_key_value_db.Storage.Store.{find}
use little_key_value_db.Storage.Mvcc.{mvcc_resolve_intent, get_uncommitted_value, record_of}
use little_key_value_db.Storage.Mvcc.Write.{resolve-own}
use little_key_value_db.Tests.Data.{banana, time, uncommitted, values, records}

-- The names of the intent of `banana` and of its version at 9.
abbrev intent_name : Bytes
intent_name = 3 ∷ 0 ∷ 0 ∷ 0 ∷ 0 ∷ 0 ∷ 0 ∷ 0 ∷ 0 ∷ 0 ∷ 0 ∷ 0 ∷ 0 ∷ b'm' ∷ b'v' ∷ b'c' ∷ b'c' ∷ []

abbrev version_name : Bytes
version_name = 3 ∷ 9 ∷ 0 ∷ 0 ∷ 0 ∷ 0 ∷ 0 ∷ 0 ∷ 0 ∷ 0 ∷ 0 ∷ 0 ∷ 0 ∷ b'm' ∷ b'v' ∷ b'c' ∷ b'c' ∷ []

-- Transaction 7 is pending and has an intent of `banana`.
abbrev with_intent : MemoryDb
with_intent = record {
  versions = (intent_name, values.to_json (uncommitted 7 8 (5 ∷ []))) ∷ [];
  records = (7 ∷ [], records.to_json (record_of pending 7 (time 8))) ∷ [];
}

abbrev no_pairs : MemoryDb
no_pairs = record { versions = []; records = [] }

resolve-own_example :
    (db' : MemoryDb) × (mvcc_resolve_intent memory values banana (time 9) 7 with_intent ≡ done db')
    × (get_uncommitted_value memory values (create_intent_key banana) db' ≡ done none)
    × (memory.get_cf mvcc version_name db' ≡ (
        if bytes_eq version_name version_name
        then some (5 ∷ [])
        else if bytes_eq intent_name version_name
        then none
        else memory.get_cf mvcc version_name with_intent))
    × (memory.get_cf txn version_name db' ≡ memory.get_cf txn version_name with_intent)
unfolding find insert remove to_string encode_mvcc_key get_uncommitted_value
    get_serialized_with_mvcc_key is_utf8 utf8_continues utf8_lead bytes_eq
resolve-own_example =
    resolve-own memory values banana (time 9) 7 with_intent (uncommitted 7 8 (5 ∷ [])) intent_name
      version_name version_name (omega arith) (omega arith, omega arith) refl refl refl refl
