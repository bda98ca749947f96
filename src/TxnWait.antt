-- ===== src/TxnWait.antt =====
-- src/txn_wait/txn_wait_queue.rs: transactions that wait for others to finish. A waiting push is a
-- shared object, so a link is an address. Its channel has room for one message, and its receiver is
-- not dropped before the message is sent. A set of ids is a list.
pub mod Laws
use little_key_value_db.Prelude.{
  ℕ, zero, suc, ◌+◌, Bool, true, false, ◌||◌, List, [], ◌∷◌, ◌++◌, Option, none, some, Outcome,
  done, panicked, unfinished, ◌>>=◌, unwrap, if◌then◌else◌, ◌==◌, ltb,
}
use little_key_value_db.Storage.Bytes.{Bytes}
use little_key_value_db.Storage.Txn.{
  Uuid, TxnRecord, TransactionStatus, pending, committed, aborted, UncommittedValue,
}
use little_key_value_db.Storage.Store.{Engine, Serde}
use little_key_value_db.Storage.Mvcc.{get_transaction_record}

abbrev pub WaitingPushLink : Type 0
WaitingPushLink = ℕ

pub record WaitingPush : Type 0 where
  pub dependents : List Uuid
  pub txn_id : Uuid
  -- the messages that `pushee_finalized_receiver` has not taken
  pub messages : ℕ

-- `PendingTxn`
abbrev pub PendingTxn : Type 0
PendingTxn = List WaitingPushLink

pub record TxnWaitQueue : Type 0 where
  pub pushees : List (Uuid × PendingTxn)
  pub pushes : WaitingPushLink → WaitingPush

-- `WaitingPush::new`
abbrev pub new_push : Uuid → WaitingPush
new_push txn_id = record { dependents = []; txn_id = txn_id; messages = 0 }

abbrev pub set_push : WaitingPushLink → WaitingPush → TxnWaitQueue → TxnWaitQueue
set_push link push q = record q { pushes = λ p. if link == p then push else q.pushes p }

unfoldable pub lookup : Uuid → List (Uuid × PendingTxn) → Option PendingTxn
lookup txn_id [] = none
lookup txn_id ((id, txn) ∷ rest) = if id == txn_id then some txn else lookup txn_id rest

-- The entry of the pushee with the push at its end, made where there is none.
unfoldable pub push_onto :
    Uuid → WaitingPushLink → List (Uuid × PendingTxn) → List (Uuid × PendingTxn)
push_onto pushee link [] = (pushee, link ∷ []) ∷ []
push_onto pushee link ((id, txn) ∷ rest) =
    if id == pushee then (id, txn ++ (link ∷ [])) ∷ rest else (id, txn) ∷ push_onto pushee link rest

-- The link is the address of the new push.
unfoldable pub enqueue_and_push : Uuid → Uuid → WaitingPushLink → TxnWaitQueue → TxnWaitQueue
unfolding push_onto
enqueue_and_push pusher_txn_id pushee_txn_id link q =
    record (set_push link (new_push pusher_txn_id) q) {
      pushees = push_onto pushee_txn_id link q.pushees;
    }

unfoldable pub get_pending_txn : Uuid → TxnWaitQueue → Option PendingTxn
unfolding lookup
get_pending_txn txn_id q = lookup txn_id q.pushees

unfoldable pub remove : Uuid → List (Uuid × PendingTxn) → List (Uuid × PendingTxn)
remove txn_id [] = []
remove txn_id ((id, txn) ∷ rest) =
    if id == txn_id then remove txn_id rest else (id, txn) ∷ remove txn_id rest

unfoldable pub remove_pushee : Uuid → TxnWaitQueue → TxnWaitQueue
unfolding remove
remove_pushee pushee_txn_id q = record q { pushees = remove pushee_txn_id q.pushees }

-- A send into the full channel waits.
unfoldable pub release_push : WaitingPushLink → TxnWaitQueue → Outcome TxnWaitQueue
release_push link q = elim (q.pushes link).messages [
  | zero ↦ done (set_push link (record (q.pushes link) { messages = 1 }) q)
  | suc n ↦ unfinished
]

unfoldable pub release_all : List WaitingPushLink → TxnWaitQueue → Outcome TxnWaitQueue
unfolding release_push
release_all [] q = done q
release_all (link ∷ links) q = do released ← release_push link q; release_all links released

unfoldable pub finalize_txn : Uuid → TxnWaitQueue → Outcome TxnWaitQueue
unfolding release_all get_pending_txn remove_pushee
finalize_txn txn_id q = elim (get_pending_txn txn_id q) [
  | none ↦ done q
  | some waiting_pushes ↦ do
    released ← release_all waiting_pushes q
    done (remove_pushee txn_id released)
]

-- The dependents of each push and the pusher itself, put together.
unfoldable pub dependents_of : List WaitingPushLink → TxnWaitQueue → List Uuid
dependents_of [] q = []
dependents_of (link ∷ links) q =
    ((q.pushes link).dependents ++ ((q.pushes link).txn_id ∷ [])) ++ dependents_of links q

unfoldable pub get_transitive_dependents : Uuid → TxnWaitQueue → List Uuid
unfolding dependents_of get_pending_txn
get_transitive_dependents txn_id q = elim (get_pending_txn txn_id q) [
  | none ↦ []
  | some waiting_pushes ↦ dependents_of waiting_pushes q
]

abbrev pub contains_id : Uuid → List Uuid → Bool
contains_id id [] = false
contains_id id (x ∷ xs) = x == id || contains_id id xs

-- `HashSet::extend`
unfoldable pub extend : List Uuid → List Uuid → List Uuid
extend set [] = set
extend set (x ∷ xs) = extend (if contains_id x set then set else set ++ (x ∷ [])) xs

module _ (e : Engine) (values : Serde UncommittedValue) (records : Serde TxnRecord)
    (uuid_to_string : Uuid → Bytes) where
  open e use {Db}

  -- One round of the loop of `start_query_pusher_txn_dependents`, with the message that it sends.
  unfoldable pub query_dependents :
      Uuid
      → WaitingPushLink
      → Db
      → TxnWaitQueue
      → Outcome (TxnWaitQueue × List Uuid × TransactionStatus)
  unfolding get_transitive_dependents extend
  query_dependents txn_id link db q = do
    let dependents = get_transitive_dependents txn_id q
    found ← get_transaction_record e values records uuid_to_string txn_id db
    txn_record ← unwrap found
    done (
      set_push link
          (record (q.pushes link) { dependents = extend (q.pushes link).dependents dependents }) q,
      dependents,
      txn_record.status,
    )

-- What the loop of `wait_for_push` receives.
pub data PushEvent : Type 0 where
  dependents_received : List Uuid → TransactionStatus → PushEvent
  pushee_finalized : PushEvent

-- How the wait ends: the pushee has finished, or was aborted by a request of the wait, or the pusher
-- itself has finished.
pub data PushResult : Type 0 where
  push_succeeded : PushResult
  pushee_aborted : Uuid → PushResult
  txn_committed : PushResult
  txn_aborted : PushResult

-- The loop of `wait_for_push` after that many rounds, on the messages that arrive.
unfoldable pub wait_loop : Uuid → ℕ → List PushEvent → Outcome PushResult
wait_loop pushee loop_count [] = if ltb 25 (suc loop_count) then panicked else unfinished
wait_loop pushee loop_count (pushee_finalized ∷ events) =
    if ltb 25 (suc loop_count) then panicked else done push_succeeded
wait_loop pushee loop_count (dependents_received dependents status ∷ events) =
    elim (ltb 25 (suc loop_count)) [
      | true ↦ panicked
      | false ↦ elim status [
        | committed ↦ done txn_committed
        | aborted ↦ done txn_aborted
        | pending ↦ elim (contains_id pushee dependents) [
          | true ↦ done (pushee_aborted pushee)
          | false ↦ wait_loop pushee (suc loop_count) events
        ]
      ]
    ]

-- `wait_for_push`: the queue after the enqueueing, and the result on the messages.
unfoldable pub wait_for_push :
    Uuid
    → Uuid
    → WaitingPushLink
    → List PushEvent
    → TxnWaitQueue
    → TxnWaitQueue × Outcome PushResult
unfolding enqueue_and_push wait_loop
wait_for_push pusher pushee link events q =
    (enqueue_and_push pusher pushee link q, wait_loop pushee 0 events)
