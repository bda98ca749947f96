-- ===== src/Db/Laws.antt =====
-- What src/db/db.rs promises of the transactions that it creates.
use little_key_value_db.Prelude.{◌≡◌, refl, lt, List, [], ◌∷◌, done, if◌then◌else◌, ◌==◌, arith}
use little_key_value_db.Hlc.Timestamp.{Timestamp, cmp, IsVersion}
use little_key_value_db.Hlc.WallClock.{manual_wall_clock}
use little_key_value_db.Hlc.Clock.{get_timestamp}
use little_key_value_db.Hlc.Clock.Monotone.{HasRoom, get_timestamp-later}
use little_key_value_db.Storage.Txn
use little_key_value_db.Storage.Txn.{Uuid, Txn}
use little_key_value_db.LockTable.Guard.{TxnLink}
use little_key_value_db.Db.{InternalDb, now_hlc, insert_txn, create_txn_internal, find_txn, get_txn}

find_txn-insert_txn :
    (txn_id other : Uuid) (link : TxnLink) (l : List (Uuid × TxnLink))
    → find_txn other (insert_txn txn_id link l)
      ≡ (if txn_id == other then done link else find_txn other l)
unfolding find_txn insert_txn
find_txn-insert_txn txn_id other link [] = refl
find_txn-insert_txn txn_id other link ((id, at) ∷ rest) =
    ground (arith, find_txn-insert_txn txn_id other link rest)

-- A transaction that is created is found under its id, with read and write timestamps later than the
-- clock's previous one and no keys written or read; the transactions under other ids and at other
-- addresses are as they were. The clock's previous timestamp is no intent timestamp, and its logical
-- time can be raised.
pub create_txn_internal_lem :
    (txn_id other : Uuid) (link address : TxnLink) (db : InternalDb)
    → IsVersion db.clock.latest_timestamp
    → HasRoom db.clock.latest_timestamp
    → (ts : Timestamp) × (cmp db.clock.latest_timestamp ts ≡ lt)
      × ((create_txn_internal txn_id link db).clock.latest_timestamp ≡ ts)
      × (get_txn other (create_txn_internal txn_id link db)
          ≡ (if txn_id == other then done link else get_txn other db))
      × ((create_txn_internal txn_id link db).heap.txns address ≡ (
          if link == address
          then record {
            txn_id = txn_id;
            write_timestamp = ts;
            read_timestamp = ts;
            lock_spans = [];
            read_set = [];
          }
          else db.heap.txns address))
unfolding create_txn_internal get_txn now_hlc Txn.new
create_txn_internal_lem txn_id other link address db v r =
    let (later, latest, above) = get_timestamp-later db.clock v r in
    ((get_timestamp db.clock).1, later, latest, find_txn-insert_txn txn_id other link db.txns, refl)
