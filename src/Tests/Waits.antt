-- ===== src/Tests/Waits.antt =====
-- Transactions that wait for others.
use little_key_value_db.Prelude.{
  ◌≡◌, ◌≢◌, refl, List, [], ◌∷◌, done, unfinished, arith, if◌then◌else◌, ◌==◌,
}
use little_key_value_db.Storage.Bytes.{bytes_eq}
use little_key_value_db.Storage.Txn.{Uuid, pending}
use little_key_value_db.Storage.Mvcc.{get_transaction_record, record_of}
use little_key_value_db.Storage.Store
use little_key_value_db.Storage.Store.{find}
use little_key_value_db.Storage.Store.Memory.{memory, MemoryDb}
use little_key_value_db.LockTable.State.Wake.{elem}
use little_key_value_db.TxnWait.{
  TxnWaitQueue, WaitingPush, WaitingPushLink, new_push, lookup, get_pending_txn, finalize_txn,
  contains_id, query_dependents, wait_loop, dependents_received, pushee_aborted, wait_for_push,
}
use little_key_value_db.TxnWait.Laws.{finalize_txn_lem}
use little_key_value_db.TxnWait.Laws.Sound.{WaitsFor, AreSound}
use little_key_value_db.TxnWait.Laws.Joined.{IsUnused}
use little_key_value_db.TxnWait.Laws.Deadlock.{
  query_dependents-AreSound, deadlock_of_two, wait_loop_ends,
}
use little_key_value_db.Tests.Data.{time, values, records, uuid_to_string}

-- The transaction of the push `p` is `p + 10`. Those of the pushes 1 and 2 wait for 7, and 7, of the
-- push 3, waits for 11.
abbrev push_of : WaitingPushLink → WaitingPush
push_of p = new_push (if p == 3 then 7 else if p == 1 then 11 else 12)

abbrev queue : TxnWaitQueue
queue = record { pushees = (7, 1 ∷ 2 ∷ []) ∷ (11, 3 ∷ []) ∷ []; pushes = push_of }

finalize_txn_lem_example :
    (q' : TxnWaitQueue) × (finalize_txn 7 queue ≡ done q')
    × ((p : WaitingPushLink)
        → q'.pushes p ≡ (
            if elem p (1 ∷ 2 ∷ [])
            then record (queue.pushes p) { messages = 1 }
            else queue.pushes p))
    × (get_pending_txn 11 q' ≡ get_pending_txn 11 queue)
unfolding get_pending_txn lookup
finalize_txn_lem_example =
    finalize_txn_lem 7 11 queue (1 ∷ 2 ∷ []) refl (refl, (refl, tt)) (refl, (refl, tt))

abbrev db : MemoryDb
db = record {
  versions = [];
  records = (7 ∷ [], records.to_json (record_of pending 7 (time 8))) ∷ [];
}

queue-AreSound : AreSound queue
queue-AreSound pushee id links link g h c = ground arith

queue-IsUnused : IsUnused 9 queue
unfolding get_pending_txn lookup
queue-IsUnused pushee links held = ground arith

query_dependents-AreSound_example :
    AreSound (wait_for_push 11 7 9 [] queue).0
    × (q' : TxnWaitQueue) × (dependents : List Uuid) × (query_dependents memory values records
          uuid_to_string 7 3 db queue
        ≡ done (q', dependents, pending))
    × AreSound q'
    × (if contains_id 11 dependents then WaitsFor queue 11 7 else Unit)
unfolding get_transaction_record Store.get_transaction_record find bytes_eq
query_dependents-AreSound_example =
    query_dependents-AreSound memory values records uuid_to_string 11 7 9 3 [] db queue
      (record_of pending 7 (time 8)) 11 queue-AreSound queue-IsUnused refl

-- The transaction 11 waits for 7, which starts to wait for 11.
deadlock_of_two_example :
    (q' : TxnWaitQueue) × (dependents : List Uuid) × (query_dependents memory values records
        uuid_to_string 7 9 db
        (wait_for_push 7 11 9 [] queue).0
      ≡ done (q', dependents, pending))
    × ((wait_for_push 7 11 9 (dependents_received dependents pending ∷ []) queue).1
        ≡ done (pushee_aborted 11))
unfolding get_transaction_record Store.get_transaction_record find bytes_eq get_pending_txn lookup
deadlock_of_two_example =
    deadlock_of_two memory values records uuid_to_string queue 7 (1 ∷ 2 ∷ []) 1 9 db _ [] refl refl
      refl refl

wait_loop_ends_example : wait_loop 7 24 (dependents_received [] pending ∷ []) ≢ unfinished
wait_loop_ends_example = wait_loop_ends 7 24 (dependents_received [] pending ∷ []) (ground arith)
