-- ===== src/Tests/Requests.antt =====
-- Requests, refreshes and the oracle's ranges.
use little_key_value_db.Prelude.{
  ◌≡◌, refl, inr, true, false, List, [], ◌∷◌, none, some, done, arith,
}
use little_key_value_db.Hlc.Timestamp.{cmp}
use little_key_value_db.Storage.Bytes.{bytes_eq, is_utf8, utf8_continues, utf8_lead}
use little_key_value_db.Storage.Key.{
  create_intent_key, is_intent_key, to_string, encode_mvcc_key, decode_mvcc_key,
}
use little_key_value_db.Storage.Txn.{Txn, contains, append_read_sets, pending}
use little_key_value_db.Storage.Iterator
use little_key_value_db.Storage.Iterator.{at_most, seek_ge, is_sought, current_value_serialized}
use little_key_value_db.Storage.Iterator.Seek.{Entry, raws}
use little_key_value_db.Storage.Store
use little_key_value_db.Storage.Store.{find}
use little_key_value_db.Storage.Store.Memory.{memory, MemoryDb}
use little_key_value_db.Storage.Mvcc.{
  get_uncommitted_value, mvcc_get_uncommited_value, get_transaction_record, record_of,
}
use little_key_value_db.LockTable.Guard
use little_key_value_db.LockTable.Guard.{Heap}
use little_key_value_db.LockTable.State.{get_holder_txn_id, get_reservation_txn_id}
use little_key_value_db.LockTable.Table.{get_lock_state, state_or_new}
use little_key_value_db.Execute.Executor.{refresh_read_timestamp}
use little_key_value_db.Execute.Executor.Refresh.{refresh_read_timestamp_one}
use little_key_value_db.Execute.Request.{execute_get, execute_put, got, stored}
use little_key_value_db.Execute.Request.Reads.{execute_get-intent}
use little_key_value_db.Execute.Request.Puts.{execute_put-own, held_by}
use little_key_value_db.Oracle.{OracleValue}
use little_key_value_db.Tests.Data.{
  banana, time, version, transaction, metadata, uncommitted, values, records, uuid_to_string,
}

abbrev of_pairs : List Entry → MemoryDb
of_pairs es = record {
  versions = raws es;
  records = (7 ∷ [], records.to_json (record_of pending 7 (time 8))) ∷ [];
}

abbrev intent : Entry
intent = (create_intent_key banana, values.to_json (uncommitted 7 8 (5 ∷ [])))

-- A transaction that reads at 6, writes at 9, and has read `banana`.
abbrev reader : Txn
reader = record (transaction 2 6) { write_timestamp = time 9; read_set = banana ∷ [] }

abbrev heap : Heap
heap = record { guards = λ n. Guard.new n false [] n; txns = λ n. transaction n 9 }

refresh_read_timestamp_one_example :
    refresh_read_timestamp memory values reader (of_pairs (version banana 4 (1 ∷ []) ∷ []))
    ≡ done (reader, false)
unfolding at_most cmp bytes_eq is_intent_key
refresh_read_timestamp_one_example =
    refresh_read_timestamp_one memory values reader banana
      (of_pairs (version banana 4 (1 ∷ []) ∷ [])) [] (version banana 4 (1 ∷ [])) [] [] refl refl
      (record {
        words_before = tt;
        words = omega arith;
        words_after = tt;
        before = tt;
        of_key = (refl, tt);
        after_key = tt;
      })
      refl

execute_get-intent_example :
    execute_get memory values banana reader (of_pairs (intent ∷ version banana 4 (1 ∷ []) ∷ []))
    ≡ done (append_read_sets reader banana, got none)
unfolding at_most cmp bytes_eq is_intent_key
execute_get-intent_example =
    execute_get-intent memory values banana reader
      (of_pairs (intent ∷ version banana 4 (1 ∷ []) ∷ [])) [] intent
      (version banana 4 (1 ∷ []) ∷ []) [] (uncommitted 7 8 (5 ∷ [])) refl
      (record {
        words_before = tt;
        words = omega arith;
        words_after = tt;
        before = tt;
        of_key = (refl, (refl, tt));
        after_key = tt;
      })
      refl refl

execute_put-own_example :
    (db' : MemoryDb) × (h' : Heap) × (locks' : _) × (execute_put memory values records
        uuid_to_string banana
        (6 ∷ [])
        7
        (of_pairs (intent ∷ []))
        heap
        []
      ≡ done (db', h', locks', stored))
    × (get_uncommitted_value memory values (create_intent_key banana) db'
        ≡ done (some (uncommitted 7 9 (6 ∷ []))))
    × (get_lock_state banana locks' ≡ some (held_by (transaction 7 9) (state_or_new banana [])))
    × (contains (h'.txns 7).lock_spans banana ≡ true)
unfolding find mvcc_get_uncommited_value seek_ge Iterator.new decode_mvcc_key is_sought cmp
    is_intent_key current_value_serialized get_transaction_record Store.get_transaction_record
    to_string encode_mvcc_key is_utf8 utf8_continues utf8_lead bytes_eq get_holder_txn_id
    get_lock_state get_reservation_txn_id
execute_put-own_example =
    execute_put-own memory values records uuid_to_string banana (6 ∷ []) 7 (of_pairs (intent ∷ []))
      heap [] (3 ∷ 0 ∷ 0 ∷ 0 ∷ 0 ∷ 0 ∷ 0 ∷ 0 ∷ 0 ∷ 0 ∷ 0 ∷ 0 ∷ 0 ∷ b'm' ∷ b'v' ∷ b'c' ∷ b'c' ∷ [])
      (some (metadata 7 8, record_of pending 7 (time 8))) (metadata 7 8)
      (record_of pending 7 (time 8)) refl (inr (refl, refl)) refl refl

abbrev three : OracleValue
three = record { timestamp = time 3; txn_id = some 1 }

abbrev five : OracleValue
five = record { timestamp = time 5; txn_id = some 2 }
