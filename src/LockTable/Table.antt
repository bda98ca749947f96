-- ===== src/LockTable/Table.antt =====
-- `LockTable` of src/lock_table/lock_table.rs: the locks by key. The hash map is an association list.
-- A lock state is linked from this map alone, so it stands in the map itself. `wait_for` is in
-- Concurrency/Wait.
pub mod Locks
pub mod Scan
use little_key_value_db.Prelude.{
  ℕ, Bool, true, false, not, ◌&&◌, List, [], ◌∷◌, ◌++◌, Option, none, some, Outcome, done, panicked,
  ◌>>=◌, if◌then◌else◌, ◌==◌,
}
use little_key_value_db.Hlc.Timestamp.{Timestamp}
use little_key_value_db.Storage.Bytes.{Key, bytes_eq}
use little_key_value_db.Storage.Txn.{
  Uuid, TxnMetadata, TxnIntent, get_txn_properties, to_txn_metadata,
}
use little_key_value_db.LockTable.Guard.{
  Heap, TxnLink, LockTableGuardLink, LockTableGuard, Range, SpanSet, WaitingState, waiting,
  update_wait_state, set_should_wait, set_guard,
}
use little_key_value_db.LockTable.Guard
use little_key_value_db.LockTable.State
use little_key_value_db.LockTable.State.{
  LockState, is_some, update_reservation, update_holder, update_last_commit_timestamp,
  get_holder_txn_id, get_reservation_txn_id, lock_is_free, try_active_wait, request_done,
}

abbrev pub Locks : Type 0
Locks = List (Key × LockState)

unfoldable pub get_lock_state : Key → Locks → Option LockState
get_lock_state key [] = none
get_lock_state key ((k, s) ∷ rest) = if bytes_eq k key then some s else get_lock_state key rest

-- `HashMap::insert`
unfoldable pub insert_lock_state : Key → LockState → Locks → Locks
insert_lock_state key state [] = (key, state) ∷ []
insert_lock_state key state ((k, s) ∷ rest) =
    if bytes_eq k key then (key, state) ∷ rest else (k, s) ∷ insert_lock_state key state rest

-- The state of a key, or a new one.
abbrev pub state_or_new : Key → Locks → LockState
state_or_new key locks = elim (get_lock_state key locks) [ none ↦ State.new | some s ↦ s ]

abbrev pub discovered : LockState → TxnMetadata → LockState
discovered s txn_meta = record s {
  lock_holder = elim s.lock_holder [ none ↦ some txn_meta | some holder ↦ some holder ];
  reservation = none;
}

unfoldable pub add_discovered_lock : LockTableGuardLink → TxnIntent → Heap → Locks → Heap × Locks
unfolding update_wait_state
add_discovered_lock guard intent h locks =
    let s = discovered (state_or_new intent.key locks) intent.txn_meta in
    let queued : LockState =
      if (h.guards guard).is_read_only
      then record s { waiting_readers = s.waiting_readers ++ (guard ∷ []) }
      else record s { queued_writers = s.queued_writers ++ (guard ∷ []) } in
    (update_wait_state guard waiting h, insert_lock_state intent.key queued locks)

-- The loop of `scan_and_enqueue` over the spans: it stops at the first lock that the guard waits for.
unfoldable pub scan_spans :
    SpanSet → LockTableGuardLink → Bool → Heap → Locks → Outcome (Heap × Locks × Bool)
scan_spans [] guard is_read_only h locks = done (set_should_wait guard false h, locks, false)
scan_spans (span ∷ spans) guard is_read_only h locks = elim (get_lock_state span.start_key locks) [
  | none ↦ scan_spans spans guard is_read_only h locks
  | some state ↦ do
    asked ← try_active_wait state guard is_read_only h
    let locks' : Locks = insert_lock_state span.start_key asked.1 locks
    elim asked.2 [
      | true ↦ done (set_should_wait guard true asked.0, locks', true)
      | false ↦ scan_spans spans guard is_read_only asked.0 locks'
    ]
]

-- The request is given by its transaction, its spans and whether it only reads; `link` is the address
-- of the new guard and `guard_id` the id that it draws.
unfoldable pub scan_and_enqueue :
    TxnLink
    → SpanSet
    → Bool
    → LockTableGuardLink
    → Uuid
    → Heap
    → Locks
    → Outcome (Heap × Locks × Bool)
unfolding scan_spans
scan_and_enqueue txn spans is_read_only link guard_id h locks =
    scan_spans spans link is_read_only
      (set_guard link (Guard.new txn is_read_only spans guard_id) h) locks

unfoldable pub dequeue_keys : SpanSet → LockTableGuardLink → Heap → Locks → Outcome (Heap × Locks)
dequeue_keys [] guard h locks = done (h, locks)
dequeue_keys (key ∷ keys) guard h locks = elim (get_lock_state key.start_key locks) [
  | none ↦ dequeue_keys keys guard h locks
  | some state ↦ do
    left ← request_done state guard h
    dequeue_keys keys guard left.0 (insert_lock_state key.start_key left.1 locks)
]

unfoldable pub dequeue : LockTableGuardLink → Heap → Locks → Outcome (Heap × Locks)
unfolding dequeue_keys
dequeue guard h locks = dequeue_keys (h.guards guard).keys guard h locks

-- Whether an id is there and is another one.
abbrev pub is_other : Option Uuid → Uuid → Bool
is_other none txn_id = false
is_other (some other) txn_id = not (other == txn_id)

unfoldable pub acquire_lock : Key → TxnLink → Heap → Locks → Outcome Locks
unfolding get_holder_txn_id get_reservation_txn_id update_reservation update_holder
acquire_lock key txn h locks =
    let holder : TxnMetadata = to_txn_metadata (h.txns txn) in
    elim (get_lock_state key locks) [
      | some state ↦
          if is_other (get_holder_txn_id state) holder.txn_id
          then panicked
          else if is_other (get_reservation_txn_id state h) holder.txn_id
          then panicked
          else done (
              insert_lock_state key (update_holder (update_reservation state none) (some holder))
                locks)
      | none ↦ done (insert_lock_state key (update_holder State.new (some holder)) locks)
    ]

pub data UpdateLock : Type 0 where
  commit : Uuid → Timestamp → UpdateLock
  abort : Uuid → UpdateLock

abbrev pub update_txn_id : UpdateLock → Uuid
update_txn_id (commit txn_id commit_timestamp) = txn_id
update_txn_id (abort txn_id) = txn_id

-- The state before the call of `lock_is_free`: no holder, and the time of a commit.
unfoldable pub released : UpdateLock → LockState → LockState
unfolding update_holder update_last_commit_timestamp
released (commit txn_id commit_timestamp) s =
    update_last_commit_timestamp (update_holder s none) commit_timestamp
released (abort txn_id) s = update_holder s none

unfoldable pub update_locks : Key → UpdateLock → Heap → Locks → Outcome (Heap × Locks × Bool)
unfolding released get_holder_txn_id
update_locks key update_lock h locks = elim (get_lock_state key locks) [
  | none ↦ done (h, locks, false)
  | some state ↦
      if not (is_some state.reservation) && not (is_some state.lock_holder)
      then done (h, locks, true)
      else if is_other (get_holder_txn_id state) (update_txn_id update_lock)
      then done (h, locks, false)
      else (do
        freed ← lock_is_free (released update_lock state) h
        done (freed.0, insert_lock_state key freed.1 locks, freed.2))
]
