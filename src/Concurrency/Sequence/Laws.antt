-- ===== src/Concurrency/Sequence/Laws.antt =====
-- How a put is sequenced by src/concurrency/concurrency_manager.rs.
use little_key_value_db.Prelude.{
  ◌≡◌, refl, Bool, true, false, List, [], ◌∷◌, Option, none, some, Outcome, done, ◌>>=◌,
  if◌then◌else◌,
}
use little_key_value_db.Storage.Bytes.{Key, Value}
use little_key_value_db.LockTable.Guard.{Heap, TxnLink, txn_of}
use little_key_value_db.LockTable.State.Exclusive.{IsExclusive}
use little_key_value_db.LockTable.Table.{Locks, state_or_new, scan_and_enqueue}
use little_key_value_db.LockTable.Table.Locks.{is_taken}
use little_key_value_db.LockTable.Table.Scan.{scan_and_enqueue_lem, decides-done}
use little_key_value_db.Latch.Node.Leaf.{find_key_idx}
use little_key_value_db.Latch.Manager.{LatchManager, acquire, release}
use little_key_value_db.Latch.Manager.Single.{IsSingle, acquire_single}
use little_key_value_db.Execute.Span.{put, point, collect_spans, is_read_only}
use little_key_value_db.Concurrency.Wait.{Manager, WaitForGuardError, wait_for}
use little_key_value_db.Concurrency.Sequence.{
  Guard, Round, Sequenced, sequenced, refused, sequence_error, sequence_loop, sequence_req,
}

-- What a put does when its wait ends: it reports the error, or starts again with the rounds that are left.
abbrev pub goes_on :
    Key
    → Value
    → TxnLink
    → List Round
    → Manager × Option WaitForGuardError
    → Outcome (Manager × Sequenced)
goes_on key value txn rounds waited = elim waited.1 [
  | some error ↦ done (waited.0, refused (sequence_error error))
  | none ↦ sequence_req (put key value) txn rounds waited.0
]

-- The put waits for its lock, after which the others have done what they do to the state.
abbrev pub waits :
    Key → Value → TxnLink → Round → List Round → Manager → Outcome (Manager × Sequenced)
waits key value txn r rounds s =
    wait_for r.link r.wait (r.others s) >>= goes_on key value txn rounds

-- The guard of a put that is let through.
abbrev pub put_guard : Key → Round → Guard
put_guard key r = record { latch_guard = point key ∷ []; lock_guard = r.link }

sequence_run :
    (key : Key) (value : Value) (txn : TxnLink) (r : Round) (rounds : List Round) (s : Manager)
    (h : Heap) (locks : Locks) (latched : LatchManager) (b : Bool)
    → acquire (point key ∷ []) r.latch_events s.latches ≡ done (latched, r.latch_events)
    → scan_and_enqueue txn (point key ∷ []) false r.link r.guard_id s.heap s.locks
      ≡ done (h, locks, b)
    → release (point key ∷ []) latched ≡ done s.latches
    → sequence_req (put key value) txn (r ∷ rounds) s ≡ (
        if b
        then waits key value txn r rounds (record s { heap = h; locks = locks })
        else done
            (record s { latches = latched; heap = h; locks = locks }, sequenced (put_guard key r)))
unfolding sequence_req sequence_loop collect_spans is_read_only
sequence_run key value txn r rounds s h locks latched true acquires scans releases =
    rw (acquires, scans, releases) refl
sequence_run key value txn r rounds s h locks latched false acquires scans releases =
    rw (acquires, scans) refl

-- A put whose latch nobody holds is sequenced by the lock of its key. It acquires the latch at once and
-- scans the lock table. If another transaction holds or has reserved the lock in the state that the scan
-- leaves, the put waits without a latch: what the others meet meanwhile are the latches as they were
-- before, and after the wait the put reports the error of the wait or starts again. Otherwise it goes on,
-- with the latch, whose release would give the latches back, and with the guard of the scan. The latch
-- tree is a single leaf, and the lock of the key is not held and reserved at once.
pub sequence_req-put :
    (key : Key) (value : Value) (txn : TxnLink) (r : Round) (rounds : List Round) (s : Manager)
    (single : IsSingle s.latches)
    → find_key_idx key single.n.start_keys ≡ none
    → IsExclusive (state_or_new key s.locks)
    → (h : Heap) × (locks : Locks) × (latched : LatchManager) × (acquire
          (point key ∷ [])
          r.latch_events
          s.latches
        ≡ done (latched, r.latch_events))
      × (release (point key ∷ []) latched ≡ done s.latches)
      × (scan_and_enqueue txn (point key ∷ []) false r.link r.guard_id s.heap s.locks
          ≡ done (h, locks, is_taken key (txn_of r.link h).txn_id h locks))
      × (sequence_req (put key value) txn (r ∷ rounds) s ≡ (
          if is_taken key (txn_of r.link h).txn_id h locks
          then waits key value txn r rounds (record s { heap = h; locks = locks })
          else done (
            record s { latches = latched; heap = h; locks = locks },
            sequenced (put_guard key r),
          )))
sequence_req-put key value txn r rounds s single absent exclusive =
    let (latched, acquires, releases) = acquire_single key r.latch_events s.latches single absent in
    let (h, locks, scans) =
      decides-done key r.link
        (scan_and_enqueue txn (point key ∷ []) false r.link r.guard_id s.heap s.locks)
        (scan_and_enqueue_lem txn (point key) r.link r.guard_id s.heap s.locks exclusive) in
    (
      h,
      locks,
      latched,
      acquires,
      releases,
      scans,
      sequence_run key value txn r rounds s h locks latched
          (is_taken key (txn_of r.link h).txn_id h locks) acquires scans releases,
    )
