-- ===== src/TxnWait/Laws/Deadlock.antt =====
-- The search for a deadlock of src/txn_wait/txn_wait_queue.rs: whom it reports, and when a wait ends.
use little_key_value_db.Prelude.{
  ℕ, suc, ◌+◌, ◌≤◌, ◌≡◌, ◌≢◌, sym, subst, inl, inr, true, List, [], ◌∷◌, ◌++◌, some, done,
  unfinished, ◌>>=◌, if◌then◌else◌, ◌==◌, ==_iff, ==_refl, Bool-cases, length, arith, false,
}
use little_key_value_db.Storage.Bytes.{Bytes}
use little_key_value_db.Storage.Txn.{
  Uuid, TxnMetadata, TxnRecord, UncommittedValue, pending, committed, aborted,
}
use little_key_value_db.Storage.Store.{Engine, Serde}
use little_key_value_db.Storage.Mvcc.{get_transaction_record}
use little_key_value_db.LockTable.State.Wake.{elem}
use little_key_value_db.TxnWait.{
  enqueue_and_push, wait_for_push, WaitingPushLink, TxnWaitQueue, get_pending_txn, dependents_of,
  query_dependents, get_transitive_dependents, contains_id, PushEvent, dependents_received,
  pushee_finalized, pushee_aborted, wait_loop,
}
use little_key_value_db.TxnWait.Laws.Joined.{
  IsUnused, enqueue_and_push-AreSound, kept_push, still_pending,
}
use little_key_value_db.TxnWait.Laws.Sound.{
  WaitsFor, AreSound, queried, get_transitive_dependents-WaitsFor, queried-AreSound,
  contains_id-append,
}

contains_id-dependents_of :
    (link : WaitingPushLink) (links : List WaitingPushLink) (q : TxnWaitQueue)
    → elem link links ≡ true
    → contains_id (q.pushes link).txn_id (dependents_of links q) ≡ true
unfolding dependents_of
contains_id-dependents_of link [] q h = absurd (ground arith)
contains_id-dependents_of link (p ∷ links) q h = ground (
  arith,
  contains_id-dependents_of link links q,
  ==_iff p link,
  ==_refl (q.pushes link).txn_id,
  contains_id-append (q.pushes link).txn_id ((q.pushes p).dependents ++ ((q.pushes p).txn_id ∷ []))
      (dependents_of links q),
  contains_id-append (q.pushes link).txn_id (q.pushes p).dependents ((q.pushes p).txn_id ∷ []),
)

-- Who waits for a transaction is found as its dependent.
pending_dependent :
    (q : TxnWaitQueue) (pusher : Uuid) (links : List WaitingPushLink) (link : WaitingPushLink)
    → get_pending_txn pusher q ≡ some links
    → elem link links ≡ true
    → contains_id (q.pushes link).txn_id (get_transitive_dependents pusher q) ≡ true
unfolding get_transitive_dependents
pending_dependent q pusher links link g h = ground (arith, contains_id-dependents_of link links q h)

wait_ends :
    (pushee pusher : Uuid) (q : TxnWaitQueue) (events : List PushEvent)
    → contains_id pushee (get_transitive_dependents pusher q) ≡ true
    → wait_loop pushee 0 (dependents_received (get_transitive_dependents pusher q) pending ∷ events)
      ≡ done (pushee_aborted pushee)
unfolding wait_loop
wait_ends pushee pusher q events h = ground arith

module _ (e : Engine) (values : Serde UncommittedValue) (records : Serde TxnRecord)
    (uuid_to_string : Uuid → Bytes) where
  open e use {Db}

  round_run :
      (txn_id : Uuid) (link : WaitingPushLink) (db : Db) (q : TxnWaitQueue) (r : TxnRecord)
      → get_transaction_record e values records uuid_to_string txn_id db ≡ done (some r)
      → query_dependents e values records uuid_to_string txn_id link db q
        ≡ done (queried txn_id link q, get_transitive_dependents txn_id q, r.status)
  unfolding query_dependents
  round_run txn_id link db q r g = rw (g, ◌>>=◌)

  -- If all that the pushes have recorded are transactions that wait for their pushers, at once or through
  -- others, then this also holds after a transaction has started to wait with an unused push, and after
  -- a round of the search for a pusher's dependents, and all that the round sends wait for the pusher.
  -- The record of the pusher reads back, and its status is sent along.
  pub query_dependents-AreSound :
      (pusher pushee : Uuid) (unused link : WaitingPushLink) (events : List PushEvent) (db : Db)
      (q : TxnWaitQueue) (r : TxnRecord) (id : Uuid)
      → AreSound q
      → IsUnused unused q
      → get_transaction_record e values records uuid_to_string (q.pushes link).txn_id db
        ≡ done (some r)
      → AreSound (wait_for_push pusher pushee unused events q).0
        × (q' : TxnWaitQueue) × (dependents : List Uuid) × (query_dependents e values records
              uuid_to_string
              (q.pushes link).txn_id
              link
              db
              q
            ≡ done (q', dependents, r.status))
        × AreSound q'
        × (if contains_id id dependents then WaitsFor q id (q.pushes link).txn_id else Unit)
  unfolding wait_for_push
  query_dependents-AreSound pusher pushee unused link events db q r id s fresh g = (
    enqueue_and_push-AreSound pusher pushee unused q fresh s,
    queried (q.pushes link).txn_id link q,
    get_transitive_dependents (q.pushes link).txn_id q,
    round_run (q.pushes link).txn_id link db q r g,
    queried-AreSound q link s,
    elim (Bool-cases (contains_id id (get_transitive_dependents (q.pushes link).txn_id q))) [
      | inl found ↦
          subst (λ b. if b then WaitsFor q id (q.pushes link).txn_id else Unit) (sym found)
            (get_transitive_dependents-WaitsFor q (q.pushes link).txn_id id s found)
      | inr absent ↦
          subst (λ b. if b then WaitsFor q id (q.pushes link).txn_id else Unit) (sym absent) tt
    ],
  )

  -- A deadlock of two is detected. A transaction waits for another one, `pusher`, which is pending and
  -- now starts to wait for the first. Then the first round of the search sends a message on which the
  -- wait of `pusher` ends with the decision to abort the first transaction, whatever messages follow.
  pub deadlock_of_two :
      (q : TxnWaitQueue) (pusher : Uuid) (links : List WaitingPushLink)
      (link unused : WaitingPushLink) (db : Db) (m : TxnMetadata) (events : List PushEvent)
      → get_pending_txn pusher q ≡ some links
      → elem link links ≡ true
      → (unused == link) ≡ false
      → get_transaction_record e values records uuid_to_string pusher db
        ≡ done (some (record { status = pending; metadata = m }))
      → (q' : TxnWaitQueue) × (dependents : List Uuid) × (query_dependents e values records
            uuid_to_string pusher unused db
            (wait_for_push pusher (q.pushes link).txn_id unused [] q).0
          ≡ done (q', dependents, pending))
        × ((wait_for_push pusher
              (q.pushes link).txn_id
              unused
              (dependents_received dependents pending ∷ events)
              q).1
            ≡ done (pushee_aborted (q.pushes link).txn_id))
  unfolding wait_for_push
  deadlock_of_two q pusher links link unused db m events g h other pending_record =
      let pushee = (q.pushes link).txn_id in
      let q1 = enqueue_and_push pusher pushee unused q in
      let (links', g', h') = still_pending pusher pushee pusher unused link q links g h in
      let kept = kept_push pusher pushee unused link q other in
      (
        queried pusher unused q1,
        get_transitive_dependents pusher q1,
        round_run pusher unused db q1 _ pending_record,
        wait_ends pushee pusher q1 events (
            subst (λ w. contains_id w.txn_id (get_transitive_dependents pusher q1) ≡ true)
              (sym kept) (pending_dependent q1 pusher links' link g' h')),
      )

-- A wait ends: whatever messages arrive, it has a result or panics at the latest after 25 of them.
pub wait_loop_ends :
    (pushee : Uuid) (loop_count : ℕ) (events : List PushEvent)
    → 25 ≤ loop_count + length events
    → wait_loop pushee loop_count events ≢ unfinished
unfolding wait_loop
wait_loop_ends pushee loop_count [] l = ground arith
wait_loop_ends pushee loop_count (pushee_finalized ∷ events) l = ground arith
wait_loop_ends pushee loop_count (dependents_received d committed ∷ events) l = ground arith
wait_loop_ends pushee loop_count (dependents_received d aborted ∷ events) l = ground arith
wait_loop_ends pushee loop_count (dependents_received d pending ∷ events) l =
    ground (arith, wait_loop_ends pushee (suc loop_count) events (omega arith))
