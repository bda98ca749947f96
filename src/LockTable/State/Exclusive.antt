-- ===== src/LockTable/State/Exclusive.antt =====
-- A lock of src/lock_table/lock_table.rs is never held and reserved at once, and when a request has
-- to wait for it.
use little_key_value_db.Prelude.{
  ◌≡◌, ◌⊎◌, Bool, true, false, not, ◌&&◌, [], ◌∷◌, ◌++◌, none, some, Outcome, done, panicked,
  unfinished, if◌then◌else◌, ◌==◌, arith,
}
use little_key_value_db.Storage.Txn.{Txn}
use little_key_value_db.LockTable.Guard.{
  Heap, LockTableGuardLink, waiting, done_waiting, set_guard, txn_of, update_wait_state,
  set_should_wait, done_waiting_at_lock,
}
use little_key_value_db.LockTable.State.{
  LockState, is_some, bump_txn_write_timestamp, try_active_wait, is_before,
}

-- "Reservation and lock_holder cannot both exist at the same time"
abbrev pub IsExclusive : LockState → Type 0
IsExclusive s = (s.reservation ≡ none) ⊎ (s.lock_holder ≡ none)

-- The call returns, and leaves such a lock.
abbrev pub Leaves {ℓ} :
    {A : Type ℓ} → (LockState → Type 0) → Outcome (Heap × LockState × A) → Type 0
Leaves P (done r) = P r.1
Leaves P panicked = ⊥
Leaves P unfinished = ⊥

-- Asking for a lock returns, and keeps it from being held and reserved at once, if the channel of the
-- guard is empty.
pub try_active_wait-IsExclusive :
    (s : LockState) (guard : LockTableGuardLink) (is_read_only : Bool) (h : Heap)
    → IsExclusive s
    → (h.guards guard).messages ≡ 0
    → Leaves IsExclusive (try_active_wait s guard is_read_only h)
unfolding try_active_wait done_waiting_at_lock
try_active_wait-IsExclusive s guard is_read_only h x m = ground arith

-- A read has to wait: another transaction holds the lock, and the read is not before its write.
abbrev pub read_blocked : LockState → Txn → Bool
read_blocked s t = elim s.lock_holder [
  | none ↦ false
  | some m ↦ not (m.txn_id == t.txn_id) && not (is_before t.read_timestamp m.write_timestamp)
]

-- A read of a lock that is not held and reserved at once always returns: it joins the waiting readers
-- if another transaction holds the lock and the read timestamp is not before the holder's write
-- timestamp, and otherwise it passes and leaves the lock and all guards as they are.
pub try_active_wait_read :
    (s : LockState) (guard : LockTableGuardLink) (h : Heap)
    → IsExclusive s
    → try_active_wait s guard true h ≡ (
        if read_blocked s (txn_of guard h)
        then done (
          set_should_wait guard true (update_wait_state guard waiting h),
          record s { waiting_readers = s.waiting_readers ++ (guard ∷ []) },
          true,
        )
        else done (h, s, false))
unfolding try_active_wait
try_active_wait_read s guard h x = ground arith

-- A write has to wait: another transaction has the reservation, or holds the lock.
abbrev pub write_blocked : LockState → LockTableGuardLink → Heap → Bool
write_blocked s guard h = elim s.reservation [
  | some r ↦ not ((txn_of guard h).txn_id == (txn_of r h).txn_id)
  | none ↦ elim s.lock_holder [ none ↦ false | some m ↦ not (m.txn_id == (txn_of guard h).txn_id) ]
]

-- The lock is neither held nor reserved.
abbrev pub is_free : LockState → Bool
is_free s = not (is_some s.reservation) && not (is_some s.lock_holder)

-- A write of a lock that is not held and reserved at once, by a guard whose channel is empty, always
-- returns. It waits exactly if another transaction holds or has reserved the lock, and is then the
-- last of the queued writers, marked as waiting. It takes the reservation exactly if the lock is free,
-- after its transaction's write timestamp is set to the one after the last commit of the key, if there
-- was one. Otherwise nothing changes.
pub try_active_wait_write :
    (s : LockState) (guard : LockTableGuardLink) (h : Heap)
    → IsExclusive s
    → (h.guards guard).messages ≡ 0
    → try_active_wait s guard false h ≡ (
        if write_blocked s guard h
        then done (
          set_should_wait guard true (update_wait_state guard waiting h),
          record s { queued_writers = s.queued_writers ++ (guard ∷ []) },
          true,
        )
        else if is_free s
        then done (
          set_guard guard
              (record (h.guards guard) { messages = 1; wait_state = done_waiting })
              (bump_txn_write_timestamp s (h.guards guard).txn h),
          record s { reservation = some guard },
          false,
        )
        else done (h, s, false))
unfolding try_active_wait done_waiting_at_lock
try_active_wait_write s guard h x m = ground arith
