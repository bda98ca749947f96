-- ===== src/TxnWait/Laws.antt =====
-- What the queue of src/txn_wait/txn_wait_queue.rs promises to transactions that wait.
pub mod Sound
pub mod Joined
pub mod Deadlock
use little_key_value_db.Prelude.{
  ℕ, ◌≡◌, refl, sym, ap, ◌∙◌, Bool, true, false, ◌||◌, List, [], ◌∷◌, ◌++◌, Option, none, some,
  Outcome, done, panicked, unfinished, ◌>>=◌, if◌then◌else◌, ◌==◌, ==_iff, All, arith,
}
use little_key_value_db.Storage.Txn.{Uuid}
use little_key_value_db.LockTable.State.Wake.{elem, AreDistinct}
use little_key_value_db.TxnWait.{
  WaitingPushLink, WaitingPush, PendingTxn, TxnWaitQueue, set_push, new_push, lookup, push_onto,
  enqueue_and_push, get_pending_txn, remove, remove_pushee, release_push, release_all, finalize_txn,
}

lookup-push_onto :
    (pushee other : Uuid) (link : WaitingPushLink) (l : List (Uuid × PendingTxn))
    → lookup other (push_onto pushee link l) ≡ (
        if pushee == other
        then some (elim (lookup pushee l) [ none ↦ link ∷ [] | some txn ↦ txn ++ (link ∷ []) ])
        else lookup other l)
unfolding lookup push_onto
lookup-push_onto pushee other link [] = refl
lookup-push_onto pushee other link ((id, txn) ∷ rest) =
    ground (arith, lookup-push_onto pushee other link rest)

-- A transaction that starts to wait is the last that waits for its pushee, with no dependents and no
-- message yet, and nobody else's waits change. The address of its push is new.
pub enqueue_and_push_lem :
    (pusher pushee other : Uuid) (link : WaitingPushLink) (q : TxnWaitQueue)
    → (get_pending_txn other (enqueue_and_push pusher pushee link q) ≡ (
        if pushee == other
        then some
            (elim (get_pending_txn pushee q) [ none ↦ link ∷ [] | some txn ↦ txn ++ (link ∷ []) ])
        else get_pending_txn other q))
      × ((p : WaitingPushLink)
          → (enqueue_and_push pusher pushee link q).pushes p
            ≡ (if link == p then new_push pusher else q.pushes p))
unfolding get_pending_txn enqueue_and_push
enqueue_and_push_lem pusher pushee other link q =
    (lookup-push_onto pushee other link q.pushees, λ p. refl)

abbrev notified : WaitingPush → WaitingPush
notified w = record w { messages = 1 }

-- The channels of the pushes are empty.
abbrev pub AreWaiting : TxnWaitQueue → List WaitingPushLink → Type 0
AreWaiting q links = All (λ p. (q.pushes p).messages ≡ 0) links

waiting_after :
    (q : TxnWaitQueue) (link : WaitingPushLink) (links : List WaitingPushLink)
    → elem link links ≡ false
    → AreWaiting q links
    → AreWaiting (set_push link (notified (q.pushes link)) q) links
waiting_after q link [] n w = tt
waiting_after q link (p ∷ links) n w = (ground arith, waiting_after q link links (ground arith) w.1)

released_merge :
    (q : TxnWaitQueue) (link : WaitingPushLink) (links : List WaitingPushLink) (p : WaitingPushLink)
    → (if elem p links
        then notified ((set_push link (notified (q.pushes link)) q).pushes p)
        else (set_push link (notified (q.pushes link)) q).pushes p)
      ≡ (if elem p (link ∷ links) then notified (q.pushes p) else q.pushes p)
released_merge q link links p = ground (arith, ==_iff link p)

release_all_lem :
    (links : List WaitingPushLink) (q : TxnWaitQueue)
    → AreDistinct links
    → AreWaiting q links
    → (q' : TxnWaitQueue) × (release_all links q ≡ done q')
      × ((p : WaitingPushLink)
          → q'.pushes p ≡ (if elem p links then notified (q.pushes p) else q.pushes p))
      × (q'.pushees ≡ q.pushees)
unfolding release_all release_push
release_all_lem [] q d w = (q, refl, λ p. refl, refl)
release_all_lem (link ∷ links) q d w =
    let q1 : TxnWaitQueue = set_push link (notified (q.pushes link)) q in
    let (q', run, pushes, pushees) =
      release_all_lem links q1 d.1 (waiting_after q link links d.0 w.1) in
    (q', rw (w.0, ◌>>=◌) run, λ p. pushes p ∙ released_merge q link links p, pushees)

lookup-remove :
    (txn_id other : Uuid) (l : List (Uuid × PendingTxn))
    → lookup other (remove txn_id l) ≡ (if txn_id == other then none else lookup other l)
unfolding lookup remove
lookup-remove txn_id other [] = ground arith
lookup-remove txn_id other ((id, txn) ∷ rest) = ground (arith, lookup-remove txn_id other rest)

finalize_run :
    (txn_id : Uuid) (q q1 : TxnWaitQueue) (links : List WaitingPushLink)
    → get_pending_txn txn_id q ≡ some links
    → release_all links q ≡ done q1
    → finalize_txn txn_id q ≡ done (remove_pushee txn_id q1)
unfolding finalize_txn
finalize_run txn_id q q1 links g run = ground arith

-- Finishing a transaction sends one message to each transaction that waits for it and to nobody else,
-- and forgets those waits and no others. The pushes that wait are different, and no message is on its
-- way to them.
pub finalize_txn_lem :
    (txn_id other : Uuid) (q : TxnWaitQueue) (links : List WaitingPushLink)
    → get_pending_txn txn_id q ≡ some links
    → AreDistinct links
    → AreWaiting q links
    → (q' : TxnWaitQueue) × (finalize_txn txn_id q ≡ done q')
      × ((p : WaitingPushLink)
          → q'.pushes p
            ≡ (if elem p links then record (q.pushes p) { messages = 1 } else q.pushes p))
      × (get_pending_txn other q' ≡ (if txn_id == other then none else get_pending_txn other q))
unfolding get_pending_txn remove_pushee
finalize_txn_lem txn_id other q links g d w =
    let (q1, run, pushes, pushees) = release_all_lem links q d w in
    (
      record q1 { pushees = remove txn_id q1.pushees },
      finalize_run txn_id q q1 links g run,
      pushes,
      ap (λ l. lookup other (remove txn_id l)) pushees ∙ lookup-remove txn_id other q.pushees,
    )
