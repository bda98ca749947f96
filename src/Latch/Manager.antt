-- ===== src/Latch/Manager.antt =====
-- src/latch_manager/latch_manager.rs: how the spans of a request are latched. What a waiting call sees
-- is a list of events, of which a message and a timeout are the two kinds.
pub mod Single
use little_key_value_db.Prelude.{
  ℕ, zero, suc, Bool, true, false, List, [], ◌∷◌, ◌++◌, Outcome, done, unfinished, ◌>>=◌, length,
}
use little_key_value_db.LockTable.Guard.{Range, SpanSet}
use little_key_value_db.Latch.Node.Leaf.{acquired, not_acquired}
use little_key_value_db.Latch.Tree
use little_key_value_db.Latch.Tree.{BTree}
use little_key_value_db.Latch.Tree.Insert.{insert}
use little_key_value_db.Latch.Tree.Delete.{delete}

-- The field `tree` of `LatchManager`.
abbrev pub LatchManager : Type 0
LatchManager = BTree

abbrev pub new : LatchManager
new = Tree.new 3

pub data LatchEvent : Type 0 where
  latch_released latch_timed_out : LatchEvent

-- The inner loop of `acquire` for a span: the events that are left, and whether the latch is acquired.
-- Without a further event the call waits on.
unfoldable pub acquire_span :
    Range → List LatchEvent → LatchManager → Outcome (LatchManager × List LatchEvent × Bool)
unfolding insert
acquire_span span [] t = do
  lg ← insert span t
  elim lg.1 [ acquired ↦ done (lg.0, [], true) | not_acquired ↦ unfinished ]
acquire_span span (latch_released ∷ events) t = do
  lg ← insert span t
  elim lg.1 [
    | acquired ↦ done (lg.0, latch_released ∷ events, true)
    | not_acquired ↦ acquire_span span events lg.0
  ]
acquire_span span (latch_timed_out ∷ events) t = do
  lg ← insert span t
  elim lg.1 [
    | acquired ↦ done (lg.0, latch_timed_out ∷ events, true)
    | not_acquired ↦ done (lg.0, events, false)
  ]

-- The deletion of the start keys of spans.
unfoldable pub delete_spans : SpanSet → LatchManager → Outcome LatchManager
unfolding delete
delete_spans [] t = done t
delete_spans (span ∷ spans) t = do deleted ← delete span.start_key t; delete_spans spans deleted

-- The loop of `acquire` over the spans, with those that are acquired: at a timeout they are given up.
unfoldable pub acquire_spans :
    SpanSet
    → SpanSet
    → List LatchEvent
    → LatchManager
    → Outcome (LatchManager × List LatchEvent × Bool)
unfolding acquire_span delete_spans
acquire_spans acquired_spans [] events t = done (t, events, true)
acquire_spans acquired_spans (span ∷ spans) events t = do
  res ← acquire_span span events t
  elim res.2 [
    | true ↦ acquire_spans (acquired_spans ++ (span ∷ [])) spans res.1 res.0
    | false ↦ do released ← delete_spans acquired_spans res.0; done (released, res.1, false)
  ]

-- The outer loop of `acquire`.
unfoldable pub acquire_loop :
    ℕ → SpanSet → List LatchEvent → LatchManager → Outcome (LatchManager × List LatchEvent)
unfolding acquire_spans
acquire_loop zero spans events t = unfinished
acquire_loop (suc fuel) spans events t = do
  res ← acquire_spans [] spans events t
  elim res.2 [ true ↦ done (res.0, res.1) | false ↦ acquire_loop fuel spans res.1 res.0 ]

-- Each attempt that fails takes a timeout, so one attempt more than there are events is enough.
unfoldable pub acquire :
    SpanSet → List LatchEvent → LatchManager → Outcome (LatchManager × List LatchEvent)
unfolding acquire_loop
acquire spans events t = acquire_loop (suc (length events)) spans events t

-- `release`, on the spans of the guard
unfoldable pub release : SpanSet → LatchManager → Outcome LatchManager
unfolding delete_spans
release spans t = delete_spans spans t
