-- ===== src/Tests/Locks.antt =====
-- Requests for the lock of one key.
use little_key_value_db.Prelude.{
  ℕ, ◌+◌, ◌≡◌, refl, inl, true, false, [], ◌∷◌, none, some, done, panicked, if◌then◌else◌,
}
use little_key_value_db.Storage.Bytes.{bytes_eq}
use little_key_value_db.LockTable.Guard
use little_key_value_db.LockTable.Guard.{
  Heap, LockTableGuard, LockTableGuardLink, set_should_wait, update_wait_state, set_guard, waiting,
  done_waiting, txn_of, should_wait,
}
use little_key_value_db.LockTable.State
use little_key_value_db.LockTable.State.{
  LockState, try_active_wait, lock_is_free, bump_txn_write_timestamp,
}
use little_key_value_db.LockTable.State.Exclusive.{
  IsExclusive, Leaves, try_active_wait-IsExclusive, try_active_wait_write, write_blocked, is_free,
}
use little_key_value_db.LockTable.State.Wake.{elem, woken}
use little_key_value_db.LockTable.Table.{Locks, get_lock_state, update_locks, commit}
use little_key_value_db.LockTable.Table.Locks.{update_locks_lem, update_locks_panics}
use little_key_value_db.Tests.Data.{banana, cherry, time, metadata, transaction}

-- Guard n is of transaction n, which starts at 10 + n.
abbrev heap : Heap
heap = record { guards = λ n. Guard.new n false [] n; txns = λ n. transaction n (10 + n) }

-- Transaction 1 holds the lock; readers 2 and 3 and writers 4 and 5 wait.
abbrev held : LockState
held = record {
  reservation = none;
  lock_holder = some (metadata 1 11);
  queued_writers = 4 ∷ 5 ∷ [];
  waiting_readers = 2 ∷ 3 ∷ [];
  last_committed_timestamp = none;
}

abbrev released_lock : LockState
released_lock = record held { lock_holder = none }

-- Nobody has the lock, which was last written at 3.
abbrev free_lock : LockState
free_lock = record State.new { last_committed_timestamp = some (time 3) }

abbrev locks : Locks
locks = (cherry, free_lock) ∷ (banana, held) ∷ []

update_locks_lem_example :
    (h' : Heap) × (locks' : Locks) × (update_locks banana (commit 1 (time 11)) heap locks
      ≡ done (h', locks', false))
    × (get_lock_state cherry locks' ≡ (
        if bytes_eq banana cherry
        then some (record {
          reservation = some 4;
          lock_holder = none;
          queued_writers = 5 ∷ [];
          waiting_readers = [];
          last_committed_timestamp = some (time 11);
        })
        else get_lock_state cherry locks))
    × ((p : ℕ)
        → h'.guards p ≡ (if elem p (2 ∷ 3 ∷ 4 ∷ []) then woken (heap.guards p) else heap.guards p))
unfolding get_lock_state bytes_eq
update_locks_lem_example =
    update_locks_lem banana cherry (commit 1 (time 11)) heap locks held (metadata 1 11) refl refl
      refl refl (refl, (refl, (refl, tt))) (refl, (refl, (refl, tt)))

update_locks_panics_example :
    update_locks banana
      (commit 1 (time 11))
      heap
      ((banana, record State.new { reservation = some 4 }) ∷ [])
    ≡ panicked
unfolding get_lock_state bytes_eq
update_locks_panics_example =
    update_locks_panics banana (commit 1 (time 11)) heap
      ((banana, record State.new { reservation = some 4 }) ∷ [])
      (record State.new { reservation = some 4 }) 4 refl refl refl

try_active_wait-IsExclusive_example : Leaves IsExclusive (try_active_wait free_lock 6 false heap)
try_active_wait-IsExclusive_example =
    try_active_wait-IsExclusive free_lock 6 false heap (inl refl) refl

try_active_wait_write_example : try_active_wait held 6 false heap ≡ (
    if write_blocked held 6 heap
    then done (
      set_should_wait 6 true (update_wait_state 6 waiting heap),
      record held { queued_writers = 4 ∷ 5 ∷ 6 ∷ [] },
      true,
    )
    else if is_free held
    then done (
      set_guard 6
          (record (heap.guards 6) { messages = 1; wait_state = done_waiting })
          (bump_txn_write_timestamp held (heap.guards 6).txn heap),
      record held { reservation = some 6 },
      false,
    )
    else done (heap, held, false))
try_active_wait_write_example = try_active_wait_write held 6 heap (inl refl) refl
