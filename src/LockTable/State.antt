-- ===== src/LockTable/State.antt =====
-- `LockState` of src/lock_table/lock_table.rs: the lock of one key. Its `txns` field is not used by
-- the code and is left out. A method returns the heap and the state that it leaves.
pub mod Exclusive
pub mod Wake
use little_key_value_db.Prelude.{
  ℕ, Bool, true, false, not, ◌&&◌, List, [], ◌∷◌, ◌++◌, Option, none, some, Ordering, lt, Outcome,
  done, panicked, ◌>>=◌, if◌then◌else◌, ◌==◌,
}
use little_key_value_db.Hlc.Timestamp
use little_key_value_db.Hlc.Timestamp.{Timestamp, next_logical_timestamp}
use little_key_value_db.Storage.Txn.{Uuid, Txn, TxnMetadata, to_txn_metadata}
use little_key_value_db.LockTable.Guard.{
  Heap, TxnLink, LockTableGuardLink, LockTableGuard, waiting, set_txn, txn_of, update_wait_state,
  set_should_wait, done_waiting_at_lock,
}

pub record LockState : Type 0 where
  pub reservation : Option LockTableGuardLink
  pub lock_holder : Option TxnMetadata
  pub queued_writers : List LockTableGuardLink
  pub waiting_readers : List LockTableGuardLink
  pub last_committed_timestamp : Option Timestamp

abbrev pub new : LockState
new = record {
  reservation = none;
  lock_holder = none;
  queued_writers = [];
  waiting_readers = [];
  last_committed_timestamp = none;
}

abbrev pub is_some {ℓ} : {A : Type ℓ} → Option A → Bool
is_some none = false
is_some (some a) = true

unfoldable pub clear_readers : LockState → LockState
clear_readers s = record s { waiting_readers = [] }

unfoldable pub update_reservation : LockState → Option LockTableGuardLink → LockState
update_reservation s link = record s { reservation = link }

unfoldable pub update_holder : LockState → Option TxnMetadata → LockState
update_holder s new_holder = record s { lock_holder = new_holder }

unfoldable pub update_last_commit_timestamp : LockState → Timestamp → LockState
update_last_commit_timestamp s new_timestamp = record s {
  last_committed_timestamp = some new_timestamp;
}

unfoldable pub remove_holder_if_txn_is_holder : LockState → Uuid → LockState
remove_holder_if_txn_is_holder s txn_id = elim s.lock_holder [
  | none ↦ s
  | some holder ↦ if holder.txn_id == txn_id then record s { lock_holder = none } else s
]

unfoldable pub get_holder_txn_id : LockState → Option Uuid
get_holder_txn_id s = elim s.lock_holder [ none ↦ none | some holder ↦ some holder.txn_id ]

unfoldable pub get_reservation_txn_id : LockState → Heap → Option Uuid
unfolding txn_of
get_reservation_txn_id s h = elim s.reservation [
  | none ↦ none
  | some reservation ↦ some (txn_of reservation h).txn_id
]

-- Sets the transaction's write timestamp past the last commit of the key.
unfoldable pub bump_txn_write_timestamp : LockState → TxnLink → Heap → Heap
bump_txn_write_timestamp s txn h = elim s.last_committed_timestamp [
  | none ↦ h
  | some last_commit_timestamp ↦
      set_txn txn
        (record (h.txns txn) { write_timestamp = next_logical_timestamp last_commit_timestamp }) h
]

unfoldable pub claim_reservation :
    LockState → LockTableGuardLink → Heap → Outcome (Heap × LockState)
unfolding bump_txn_write_timestamp update_reservation
claim_reservation s guard h = do
  woken ← done_waiting_at_lock guard (bump_txn_write_timestamp s (h.guards guard).txn h)
  done (woken, update_reservation s (some guard))

-- The loop of `lock_is_free` over the readers.
unfoldable pub wake_all : List LockTableGuardLink → Heap → Outcome Heap
wake_all [] h = done h
wake_all (reader ∷ readers) h = do woken ← done_waiting_at_lock reader h; wake_all readers woken

-- `remove_first_writer`, and the reservation for the writer; `true` where there is none.
unfoldable pub reserve_next : LockState → Heap → Outcome (Heap × LockState × Bool)
unfolding claim_reservation
reserve_next s h = elim s.queued_writers [
  | [] ↦ done (h, s, true)
  | writer ∷ writers ↦ do
    claimed ← claim_reservation (record s { queued_writers = writers }) writer h
    done (claimed.0, claimed.1, false)
]

unfoldable pub lock_is_free : LockState → Heap → Outcome (Heap × LockState × Bool)
unfolding reserve_next clear_readers
lock_is_free s h =
    if is_some s.lock_holder
    then panicked
    else if is_some s.reservation
    then panicked
    else (do woken ← wake_all s.waiting_readers h; reserve_next (clear_readers s) woken)

unfoldable pub register_guard : LockState → LockTableGuardLink → Heap → LockState
unfolding txn_of
register_guard s guard h =
    let held : LockState = elim s.lock_holder [
      | none ↦ record s { lock_holder = some (to_txn_metadata (txn_of guard h)) }
      | some holder ↦ s
    ] in
    if is_some s.reservation
    then record held { queued_writers = s.queued_writers ++ (guard ∷ []) }
    else held

-- `<` of timestamps
abbrev pub is_before : Timestamp → Timestamp → Bool
is_before a b = elim (Timestamp.cmp a b) [ lt ↦ true | _ ↦ false ]

-- The end of `try_active_wait`: the guard joins a queue, unless a read may pass the lock.
unfoldable pub enqueue : LockState → LockTableGuardLink → Bool → Heap → Heap × LockState × Bool
unfolding txn_of update_wait_state set_should_wait
enqueue s guard true h = elim s.lock_holder [
  | none ↦ (h, s, false)
  | some holder ↦
      if is_before (txn_of guard h).read_timestamp holder.write_timestamp then (h, s, false) else (
        set_should_wait guard true (update_wait_state guard waiting h),
        record s { waiting_readers = s.waiting_readers ++ (guard ∷ []) },
        true,
      )
]
enqueue s guard false h = (
  set_should_wait guard true (update_wait_state guard waiting h),
  record s { queued_writers = s.queued_writers ++ (guard ∷ []) },
  true,
)

-- `try_active_wait` past the test for a free lock: the holder itself need not wait.
unfoldable pub wait_unless_holder :
    LockState → LockTableGuardLink → Bool → Heap → Heap × LockState × Bool
unfolding enqueue
wait_unless_holder s guard is_read_only h = elim s.lock_holder [
  | none ↦ enqueue s guard is_read_only h
  | some holder ↦
      if holder.txn_id == (txn_of guard h).txn_id
      then (h, s, false)
      else enqueue s guard is_read_only h
]

-- The Boolean says whether the request has to wait.
unfoldable pub try_active_wait :
    LockState → LockTableGuardLink → Bool → Heap → Outcome (Heap × LockState × Bool)
unfolding wait_unless_holder claim_reservation
try_active_wait s guard is_read_only h =
    if is_read_only && not (is_some s.lock_holder) then done (h, s, false) else elim s.reservation [
      | some reservation ↦
          if (txn_of guard h).txn_id == (txn_of reservation h).txn_id
          then done (h, s, false)
          else done (wait_unless_holder s guard is_read_only h)
      | none ↦
          if not (is_some s.lock_holder)
          then (do claimed ← claim_reservation s guard h; done (claimed.0, claimed.1, false))
          else done (wait_unless_holder s guard is_read_only h)
    ]

-- `retain(|g| g.guard_id != guard.guard_id)`
unfoldable pub without : Uuid → List LockTableGuardLink → Heap → List LockTableGuardLink
without guard_id [] h = []
without guard_id (g ∷ gs) h =
    if (h.guards g).guard_id == guard_id then without guard_id gs h else g ∷ without guard_id gs h

abbrev pub leave_queues : LockTableGuardLink → Heap → LockState → LockState
leave_queues guard h s = record s {
  queued_writers = without (h.guards guard).guard_id s.queued_writers h;
  waiting_readers = without (h.guards guard).guard_id s.waiting_readers h;
}

unfoldable pub request_done : LockState → LockTableGuardLink → Heap → Outcome (Heap × LockState)
unfolding lock_is_free
request_done s guard h = elim s.reservation [
  | none ↦ done (h, leave_queues guard h s)
  | some reservation ↦
      if (h.guards reservation).guard_id == (h.guards guard).guard_id
      then (do
        freed ← lock_is_free (record s { reservation = none }) h
        done (freed.0, leave_queues guard freed.0 freed.1))
      else done (h, leave_queues guard h s)
]
