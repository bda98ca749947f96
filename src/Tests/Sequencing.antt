-- ===== src/Tests/Sequencing.antt =====
-- Requests that are sequenced, with a wait for a lock.
use little_key_value_db.Prelude.{
  if◌then◌else◌, ◌+◌, ◌≡◌, refl, inl, true, false, [], ◌∷◌, List, some, Outcome, done,
}
use little_key_value_db.LockTable.Guard
use little_key_value_db.LockTable.Guard.{Heap, set_guard, done_waiting_at_lock, txn_of}
use little_key_value_db.LockTable.State
use little_key_value_db.LockTable.State.{LockState, try_active_wait}
use little_key_value_db.LockTable.Table.{Locks, get_lock_state, scan_and_enqueue}
use little_key_value_db.LockTable.Table.Locks.{is_taken}
use little_key_value_db.LockTable.Table.Scan.{decides, scan_and_enqueue_lem}
use little_key_value_db.Storage.Bytes.{bytes_eq}
use little_key_value_db.Execute.Span.{put, point, collect_spans, is_read_only}
use little_key_value_db.Latch.Manager
use little_key_value_db.Latch.Manager.{LatchManager, acquire, release}
use little_key_value_db.Latch.Node.Leaf.{insert_range, find_key_idx}
use little_key_value_db.Concurrency.Wait.{Manager, lock_released, wait_for}
use little_key_value_db.Concurrency.Sequence.{Guard, Round, Sequenced, sequenced, sequence_req}
use little_key_value_db.Concurrency.Sequence.Laws.{sequence_req-put, waits, put_guard}
use little_key_value_db.Latch.Manager.Single.{IsSingle}
use little_key_value_db.Latch.Node.Leaf
use little_key_value_db.Tests.Data.{banana, metadata, transaction}

-- Transaction n starts at 10 + n.
abbrev heap : Heap
heap = record { guards = λ n. Guard.new n false [] n; txns = λ n. transaction n (10 + n) }

-- Transaction 1 holds the lock of `banana`.
abbrev held : Locks
held = (banana, record State.new { lock_holder = some (metadata 1 11) }) ∷ []

abbrev manager_with : Locks → Manager
manager_with locks = record {
  latches = Manager.new;
  heap = heap;
  locks = locks;
  waits = record {
    pushees = [];
    pushes = λ p. record { dependents = []; txn_id = 0; messages = 0 };
  };
}

scan_and_enqueue_lem_example :
    decides banana 20 (scan_and_enqueue 5 (point banana ∷ []) false 20 99 heap held) ≡ true
unfolding get_lock_state bytes_eq
scan_and_enqueue_lem_example = scan_and_enqueue_lem 5 (point banana) 20 99 heap held (inl refl)

-- In the first round the holder finishes while the request waits.
abbrev first_round : Round
first_round = record {
  latch_events = [];
  link = 20;
  guard_id = 99;
  others = λ s. record s {
    locks = (banana, State.new) ∷ [];
    heap = set_guard 20 (record (s.heap.guards 20) { messages = 1 }) s.heap;
  };
  wait = lock_released;
}

abbrev rounds : List Round
rounds =
    first_round
    ∷ record { latch_events = []; link = 21; guard_id = 98; others = λ s. s; wait = lock_released }
    ∷ []

-- The latches are a tree of one empty leaf.
new-IsSingle : IsSingle Manager.new
new-IsSingle = record {
  link = 0;
  n = Leaf.new 3;
  root = refl;
  node = refl;
  paired = refl;
  ascending = tt;
  room = refl;
}

sequence_req-put_example :
    (h : Heap) × (locks : Locks) × (latched : LatchManager) × (acquire
        (point banana ∷ [])
        []
        Manager.new
      ≡ done (latched, []))
    × (release (point banana ∷ []) latched ≡ done Manager.new)
    × (scan_and_enqueue 5 (point banana ∷ []) false 20 99 heap held
        ≡ done (h, locks, is_taken banana (txn_of 20 h).txn_id h locks))
    × (sequence_req (put banana (7 ∷ [])) 5 (first_round ∷ []) (manager_with held) ≡ (
        if is_taken banana (txn_of 20 h).txn_id h locks
        then waits banana
            (7 ∷ [])
            5
            first_round
            []
            (record (manager_with held) { heap = h; locks = locks })
        else done (
          record (manager_with held) { latches = latched; heap = h; locks = locks },
          sequenced (put_guard banana first_round),
        )))
unfolding new-IsSingle find_key_idx get_lock_state bytes_eq
sequence_req-put_example =
    sequence_req-put banana (7 ∷ []) 5 first_round [] (manager_with held) new-IsSingle refl
      (inl refl)

abbrev state_after : Outcome (Manager × Sequenced) → Manager
state_after (done (s, sequenced g)) = s
state_after _ = manager_with []

abbrev after : Manager
after = state_after (sequence_req (put banana (7 ∷ [])) 5 rounds (manager_with held))

abbrev guard : Guard
guard = record { latch_guard = point banana ∷ []; lock_guard = 21 }

-- The put waits, and is let through in the second round.
banana_sequenced :
    sequence_req (put banana (7 ∷ [])) 5 rounds (manager_with held) ≡ done (after, sequenced guard)
unfolding sequence_req acquire collect_spans insert_range scan_and_enqueue get_lock_state bytes_eq
    try_active_wait is_read_only release wait_for done_waiting_at_lock
banana_sequenced = refl
