-- ===== src/Concurrency/Wait.antt =====
-- `wait_for` of src/lock_table/lock_table.rs: a request waits for its lock, and pushes the holders of
-- the locks after a timeout. What other calls do to the shared state during a wait is a function.
use little_key_value_db.Prelude.{
  zero, suc, List, [], ◌∷◌, Option, none, some, Outcome, done, unfinished, ◌>>=◌, unwrap,
}
use little_key_value_db.Storage.Bytes.{Key}
use little_key_value_db.LockTable.Guard.{Heap, LockTableGuardLink, SpanSet, set_guard, txn_of}
use little_key_value_db.LockTable.State.{get_holder_txn_id, request_done}
use little_key_value_db.LockTable.Table.{Locks, get_lock_state, insert_lock_state}
use little_key_value_db.TxnWait.{
  WaitingPushLink, TxnWaitQueue, PushEvent, push_succeeded, pushee_aborted, txn_committed,
  txn_aborted, wait_for_push,
}
use little_key_value_db.Latch.Manager.{LatchManager}

-- What the concurrency manager and its lock table keep, and the heap.
pub record Manager : Type 0 where
  pub latches : LatchManager
  pub heap : Heap
  pub locks : Locks
  pub waits : TxnWaitQueue

pub data WaitForGuardError : Type 0 where
  guard_txn_aborted guard_txn_committed : WaitForGuardError

-- A call of `wait_for_push`: the address of its push, what the other calls do after it has joined the
-- queue, and the messages that arrive.
pub record Push : Type 0 where
  pub link : WaitingPushLink
  pub others : Manager → Manager
  pub events : List PushEvent

-- The branch of `select!` that is taken, with the calls of `wait_for_push`.
pub data WaitEvent : Type 0 where
  lock_released : WaitEvent
  lock_timed_out : List Push → WaitEvent

-- The end of a failed push: the request leaves the lock.
unfoldable pub leave_lock :
    LockTableGuardLink
    → Key
    → WaitForGuardError
    → Manager
    → Outcome (Manager × Option WaitForGuardError)
leave_lock guard key error s = do
  lock_state ← unwrap (get_lock_state key s.locks)
  left ← request_done lock_state guard s.heap
  done (record s { heap = left.0; locks = insert_lock_state key left.1 s.locks }, some error)

-- The loop over the keys.
unfoldable pub push_holders :
    SpanSet
    → LockTableGuardLink
    → List Push
    → Manager
    → Outcome (Manager × Option WaitForGuardError)
unfolding leave_lock
push_holders [] guard pushes s = done (s, none)
push_holders (key ∷ keys) guard [] s = do
  lock_state ← unwrap (get_lock_state key.start_key s.locks)
  elim (get_holder_txn_id lock_state) [
    | none ↦ push_holders keys guard [] s
    | some pushee_txn_id ↦ unfinished
  ]
push_holders (key ∷ keys) guard (push ∷ pushes) s = do
  lock_state ← unwrap (get_lock_state key.start_key s.locks)
  elim (get_holder_txn_id lock_state) [
    | none ↦ push_holders keys guard (push ∷ pushes) s
    | some pushee_txn_id ↦ do
      let pushed =
          wait_for_push (txn_of guard s.heap).txn_id pushee_txn_id push.link push.events s.waits
      let waited : Manager = push.others (record s { waits = pushed.0 })
      wait_res ← pushed.1
      elim wait_res [
        | push_succeeded ↦ push_holders keys guard pushes waited
        | pushee_aborted txn_id ↦ push_holders keys guard pushes waited
        | txn_committed ↦ leave_lock guard key.start_key guard_txn_committed waited
        | txn_aborted ↦ leave_lock guard key.start_key guard_txn_aborted waited
      ]
  ]

-- A message is taken, or the time is over. Without a message the first branch waits on.
unfoldable pub wait_for :
    LockTableGuardLink → WaitEvent → Manager → Outcome (Manager × Option WaitForGuardError)
unfolding push_holders
wait_for guard lock_released s = elim (s.heap.guards guard).messages [
  | zero ↦ unfinished
  | suc n ↦ done (
    record s { heap = set_guard guard (record (s.heap.guards guard) { messages = n }) s.heap },
    none,
  )
]
wait_for guard (lock_timed_out pushes) s = push_holders (s.heap.guards guard).keys guard pushes s
