-- ===== src/Tests/Database.antt =====
-- The creation of a transaction.
use little_key_value_db.Prelude.{◌≡◌, lt, false, [], ◌∷◌, done, arith}
use little_key_value_db.Hlc.Timestamp.{Timestamp, cmp}
use little_key_value_db.LockTable.Guard
use little_key_value_db.Db.{InternalDb, create_txn_internal, get_txn}
use little_key_value_db.Db.Laws.{create_txn_internal_lem}
use little_key_value_db.Tests.Data.{time, transaction}

abbrev database : InternalDb
database = record {
  clock = record { wall_clock = record { manual_time = 10 }; latest_timestamp = time 12 };
  txns = (3, 0) ∷ [];
  heap = record { guards = λ n. Guard.new n false [] n; txns = λ n. transaction 3 9 };
}

create_txn_internal_lem_example :
    (ts : Timestamp) × (cmp (time 12) ts ≡ lt)
    × ((create_txn_internal 8 1 database).clock.latest_timestamp ≡ ts)
    × (get_txn 8 (create_txn_internal 8 1 database) ≡ done 1)
    × ((create_txn_internal 8 1 database).heap.txns 0 ≡ transaction 3 9)
create_txn_internal_lem_example =
    create_txn_internal_lem 8 8 1 0 database (omega arith) (omega arith)
