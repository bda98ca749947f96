-- ===== src/Db.antt =====
-- The clock and the transactions of `InternalDB` of src/db/db.rs. A transaction is a shared object, so
-- the map holds its address. Db/Requests passes requests on to the executor.
pub mod Laws
pub mod Requests
use little_key_value_db.Prelude.{
  ℕ, ◌^◌, List, [], ◌∷◌, Outcome, done, panicked, if◌then◌else◌, ◌==◌, ltb,
}
use little_key_value_db.Hlc.Timestamp.{Timestamp}
use little_key_value_db.Hlc.WallClock.{Manual, manual_wall_clock}
use little_key_value_db.Hlc.Clock.{Clock, manual, receive_timestamp, get_timestamp}
use little_key_value_db.Storage.Txn
use little_key_value_db.Storage.Txn.{Uuid}
use little_key_value_db.LockTable.Guard.{Heap, TxnLink, set_txn}

pub record InternalDb : Type 0 where
  pub clock : Clock Manual
  pub txns : List (Uuid × TxnLink)
  pub heap : Heap

-- `Timestamp::to_hlc_timestamp`, on the field of the timestamp: the conversion to 32 bits panics
unfoldable pub to_hlc_timestamp : ℕ → Outcome Timestamp
to_hlc_timestamp value =
    if ltb value (2 ^ 32)
    then done (record { wall_time = value; logical_time = value })
    else panicked

-- `InternalDB::new` and `InternalDB::new_cleaned`, without the opening of the store
unfoldable pub new_internal_db : ℕ → Heap → Outcome InternalDb
unfolding manual
new_internal_db initial_time heap =
    if initial_time == 0
    then panicked
    else done (record { clock = manual initial_time; txns = []; heap = heap })

unfoldable pub set_time : ℕ → InternalDb → InternalDb
unfolding receive_timestamp
set_time value db = record db {
  clock = receive_timestamp db.clock (record { wall_time = value; logical_time = 0 });
}

unfoldable pub now_hlc : InternalDb → InternalDb × Timestamp
unfolding get_timestamp
now_hlc db = let issued = get_timestamp db.clock in (record db { clock = issued.0 }, issued.1)

unfoldable pub now : InternalDb → InternalDb × ℕ
unfolding now_hlc
now db = let issued = now_hlc db in (issued.0, issued.1.wall_time)

-- `HashMap::insert`
unfoldable pub insert_txn : Uuid → TxnLink → List (Uuid × TxnLink) → List (Uuid × TxnLink)
insert_txn txn_id link [] = (txn_id, link) ∷ []
insert_txn txn_id link ((id, other) ∷ rest) =
    if id == txn_id then (id, link) ∷ rest else (id, other) ∷ insert_txn txn_id link rest

-- The id is that of `Uuid::new_v4`, and the link the address of the new transaction.
unfoldable pub create_txn_internal : Uuid → TxnLink → InternalDb → InternalDb
unfolding now_hlc insert_txn
create_txn_internal txn_id link db =
    let issued = now_hlc db in
    record (issued.0) {
      txns = insert_txn txn_id link db.txns;
      heap = set_txn link (Txn.new txn_id issued.1) db.heap;
    }

unfoldable pub find_txn : Uuid → List (Uuid × TxnLink) → Outcome TxnLink
find_txn txn_id [] = panicked
find_txn txn_id ((id, link) ∷ rest) = if id == txn_id then done link else find_txn txn_id rest

unfoldable pub get_txn : Uuid → InternalDb → Outcome TxnLink
unfolding find_txn
get_txn txn_id db = find_txn txn_id db.txns
