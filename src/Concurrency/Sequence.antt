-- ===== src/Concurrency/Sequence.antt =====
-- `sequence_req` and `finish_req` of src/concurrency/concurrency_manager.rs.
pub mod Laws
use little_key_value_db.Prelude.{
  ℕ, Bool, true, false, List, [], ◌∷◌, Option, none, some, Outcome, done, unfinished, ◌>>=◌,
}
use little_key_value_db.Storage.Txn.{Uuid}
use little_key_value_db.LockTable.Guard.{TxnLink, LockTableGuardLink, SpanSet}
use little_key_value_db.LockTable.Table.{scan_and_enqueue, dequeue}
use little_key_value_db.Latch.Manager.{LatchEvent, acquire, release}
use little_key_value_db.Execute.Span.{RequestUnion, collect_spans, is_read_only}
use little_key_value_db.Concurrency.Wait.{
  Manager, WaitForGuardError, guard_txn_aborted, guard_txn_committed, WaitEvent, wait_for,
}

-- `Guard`
pub record Guard : Type 0 where
  pub latch_guard : SpanSet
  pub lock_guard : LockTableGuardLink

pub data SequenceReqError : Type 0 where
  sequence_txn_aborted sequence_txn_committed : SequenceReqError

-- A round of the loop: the events while it acquires the latches, the address and the id of the guard,
-- what the other calls do before the wait ends, and how it ends.
pub record Round : Type 0 where
  pub latch_events : List LatchEvent
  pub link : LockTableGuardLink
  pub guard_id : Uuid
  pub others : Manager → Manager
  pub wait : WaitEvent

pub data Sequenced : Type 0 where
  sequenced : Guard → Sequenced
  refused : SequenceReqError → Sequenced

abbrev pub sequence_error : WaitForGuardError → SequenceReqError
sequence_error guard_txn_aborted = sequence_txn_aborted
sequence_error guard_txn_committed = sequence_txn_committed

-- The loop, on the spans that are collected before it. The scan collects the spans of the request
-- again. A request that needs a further round waits on.
unfoldable pub sequence_loop :
    RequestUnion → TxnLink → SpanSet → List Round → Manager → Outcome (Manager × Sequenced)
sequence_loop request txn spans_to_acquire [] s = unfinished
sequence_loop request txn spans_to_acquire (r ∷ rounds) s = do
  latched ← acquire spans_to_acquire r.latch_events s.latches
  scanned ←
      scan_and_enqueue txn (collect_spans request (s.heap.txns txn)) (is_read_only request) r.link
        r.guard_id s.heap s.locks
  let enqueued : Manager = record s { latches = latched.0; heap = scanned.0; locks = scanned.1 }
  elim scanned.2 [
    | false ↦
        done (enqueued, sequenced (record { latch_guard = spans_to_acquire; lock_guard = r.link }))
    | true ↦ do
      released ← release spans_to_acquire latched.0
      waited ← wait_for r.link r.wait (r.others (record enqueued { latches = released }))
      elim waited.1 [
        | some error ↦ done (waited.0, refused (sequence_error error))
        | none ↦ sequence_loop request txn spans_to_acquire rounds waited.0
      ]
  ]

unfoldable pub sequence_req :
    RequestUnion → TxnLink → List Round → Manager → Outcome (Manager × Sequenced)
unfolding sequence_loop
sequence_req request txn rounds s =
    sequence_loop request txn (collect_spans request (s.heap.txns txn)) rounds s

-- Release latches and dequeue the request from the lock table.
unfoldable pub finish_req : Guard → Manager → Outcome Manager
finish_req guard s = do
  latches ← release guard.latch_guard s.latches
  left ← dequeue guard.lock_guard s.heap s.locks
  done (record s { latches = latches; heap = left.0; locks = left.1 })
