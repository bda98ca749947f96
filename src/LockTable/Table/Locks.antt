-- ===== src/LockTable/Table/Locks.antt =====
-- What the operations of the table of src/lock_table/lock_table.rs promise about the lock of a key.
use little_key_value_db.Prelude.{
  ℕ, ◌≡◌, refl, inl, Bool, false, ◌||◌, [], ◌∷◌, ◌++◌, Option, none, some, done, panicked, ◌>>=◌,
  if◌then◌else◌, arith, lt, ==_refl,
}
use little_key_value_db.Hlc.Timestamp.{Timestamp, cmp, next_logical_timestamp}
use little_key_value_db.Storage.Bytes.{Key, bytes_eq}
use little_key_value_db.Storage.Bytes.Order.{bytes_eq_refl, eq_of_bytes_eq}
use little_key_value_db.Storage.Txn.{Uuid, TxnMetadata, to_txn_metadata}
use little_key_value_db.LockTable.Guard.{
  Heap, TxnLink, LockTableGuardLink, txn_of, set_txn, set_guard, done_waiting,
}
use little_key_value_db.LockTable.State
use little_key_value_db.LockTable.State.{
  LockState, get_holder_txn_id, get_reservation_txn_id, lock_is_free, bump_txn_write_timestamp,
  try_active_wait, is_some,
}
use little_key_value_db.LockTable.State.Exclusive.{try_active_wait_write}
use little_key_value_db.LockTable.State.Wake.{
  AreDistinct, AreReady, first_writer, head_option, other_writers, is_nil, elem, woken,
  lock_is_free_lem,
}
use little_key_value_db.LockTable.Table.{
  Locks, get_lock_state, insert_lock_state, acquire_lock, is_other, update_locks, UpdateLock,
  commit, abort, released, state_or_new, update_txn_id,
}

-- The last commit time that an update leaves.
abbrev pub committed_at : UpdateLock → LockState → Option Timestamp
committed_at (commit txn_id commit_timestamp) s = some commit_timestamp
committed_at (abort txn_id) s = s.last_committed_timestamp

pub get_lock_state-insert :
    (key j : Key) (s : LockState) (locks : Locks)
    → get_lock_state j (insert_lock_state key s locks)
      ≡ (if bytes_eq key j then some s else get_lock_state j locks)
unfolding get_lock_state insert_lock_state
get_lock_state-insert key j s [] = refl
get_lock_state-insert key j s ((k, t) ∷ rest) = ground (
  arith,
  get_lock_state-insert key j s rest,
  eq_of_bytes_eq k key,
  eq_of_bytes_eq k j,
  eq_of_bytes_eq key j,
  bytes_eq_refl j,
  bytes_eq_refl key,
)

-- Another transaction holds or has reserved the lock of the key.
abbrev pub is_taken : Key → Uuid → Heap → Locks → Bool
is_taken key txn_id h locks =
    is_other (get_holder_txn_id (state_or_new key locks)) txn_id
    || is_other (get_reservation_txn_id (state_or_new key locks) h) txn_id

acquire_found :
    (key j : Key) (txn : TxnLink) (h : Heap) (locks : Locks) (o : Option LockState)
    → get_lock_state key locks ≡ o
    → (acquire_lock key txn h locks >>= λ l. done (get_lock_state j l)) ≡ (
        if is_taken key (h.txns txn).txn_id h locks
        then panicked
        else done (
            if bytes_eq key j
            then some (record (state_or_new key locks) {
              lock_holder = some (to_txn_metadata (h.txns txn));
              reservation = none;
            })
            else get_lock_state j locks))
unfolding acquire_lock get_holder_txn_id get_reservation_txn_id
acquire_found key j txn h locks none e = ground (
  arith,
  get_lock_state-insert key j
      (record State.new { lock_holder = some (to_txn_metadata (h.txns txn)) }) locks,
)
acquire_found key j txn h locks (some s) e = ground (
  arith,
  get_lock_state-insert key j
      (record s { lock_holder = some (to_txn_metadata (h.txns txn)); reservation = none }) locks,
)

-- Acquiring a lock panics exactly if another transaction holds or has reserved it. Otherwise the
-- transaction holds it, with its current write timestamp, nobody has it reserved, its queues are as
-- they were, and the locks of all other keys are as they were.
pub acquire_lock_lem :
    (key j : Key) (txn : TxnLink) (h : Heap) (locks : Locks)
    → (acquire_lock key txn h locks >>= λ l. done (get_lock_state j l)) ≡ (
        if is_taken key (h.txns txn).txn_id h locks
        then panicked
        else done (
            if bytes_eq key j
            then some (record (state_or_new key locks) {
              lock_holder = some (to_txn_metadata (h.txns txn));
              reservation = none;
            })
            else get_lock_state j locks))
acquire_lock_lem key j txn h locks = acquire_found key j txn h locks (get_lock_state key locks) refl

-- A write that finds the lock of a key free takes it, and leaves its transaction with an earlier write
-- timestamp than before, if the next timestamp after the last commit of the key is earlier. The
-- channel of the guard is empty.
pub claim_moves_back :
    (s : LockState) (guard : LockTableGuardLink) (h : Heap) (last : Timestamp)
    → s.last_committed_timestamp ≡ some last
    → s.lock_holder ≡ none
    → s.reservation ≡ none
    → (h.guards guard).messages ≡ 0
    → cmp (next_logical_timestamp last) (txn_of guard h).write_timestamp ≡ lt
    → (h' : Heap) × (try_active_wait s guard false h
        ≡ done (h', record s { reservation = some guard }, false))
      × ((h'.txns (h.guards guard).txn).write_timestamp ≡ next_logical_timestamp last)
      × (cmp (h'.txns (h.guards guard).txn).write_timestamp (txn_of guard h).write_timestamp ≡ lt)
unfolding bump_txn_write_timestamp txn_of
claim_moves_back s guard h last e n m k c =
    let moved : Heap =
      set_txn (h.guards guard).txn
        (record (h.txns (h.guards guard).txn) { write_timestamp = next_logical_timestamp last })
        h in
    (
      set_guard guard (record (h.guards guard) { messages = 1; wait_state = done_waiting }) moved,
      ground (arith, try_active_wait_write s guard h (inl m) k),
      ground arith,
      ground arith,
    )

finished :
    (key : Key) (u : UpdateLock) (h h' : Heap) (locks : Locks) (s t : LockState) (b : Bool)
    (m : TxnMetadata)
    → get_lock_state key locks ≡ some s
    → s.lock_holder ≡ some m
    → m.txn_id ≡ update_txn_id u
    → lock_is_free (record s { lock_holder = none; last_committed_timestamp = committed_at u s }) h
      ≡ done (h', t, b)
    → update_locks key u h locks ≡ done (h', insert_lock_state key t locks, b)
unfolding update_locks released
finished key (commit x ts) h h' locks s t b m g n o run = ground (arith, ==_refl m.txn_id)
finished key (abort x) h h' locks s t b m g n o run = ground (arith, ==_refl m.txn_id)

-- Finishing a transaction that holds a lock returns. Nobody holds the lock then, its first queued
-- writer has the reservation, its readers are woken, a commit has left its time, and the locks of all
-- other keys are as they were; the result says whether no writer was queued. The lock is not also
-- reserved, and the guards to wake are different and have empty channels.
pub update_locks_lem :
    (key j : Key) (u : UpdateLock) (h : Heap) (locks : Locks) (s : LockState) (m : TxnMetadata)
    → get_lock_state key locks ≡ some s
    → s.lock_holder ≡ some m
    → m.txn_id ≡ update_txn_id u
    → s.reservation ≡ none
    → AreDistinct (s.waiting_readers ++ first_writer s.queued_writers)
    → AreReady h (s.waiting_readers ++ first_writer s.queued_writers)
    → (h' : Heap) × (locks' : Locks) × (update_locks key u h locks
        ≡ done (h', locks', is_nil s.queued_writers))
      × (get_lock_state j locks' ≡ (
          if bytes_eq key j
          then some (record {
            reservation = head_option s.queued_writers;
            lock_holder = none;
            queued_writers = other_writers s.queued_writers;
            waiting_readers = [];
            last_committed_timestamp = committed_at u s;
          })
          else get_lock_state j locks))
      × ((p : ℕ)
          → h'.guards p ≡ (
              if elem p (s.waiting_readers ++ first_writer s.queued_writers)
              then woken (h.guards p)
              else h.guards p))
unfolding update_locks
update_locks_lem key j u h locks s m g n o r d y =
    let free : LockState = record s {
      lock_holder = none;
      last_committed_timestamp = committed_at u s;
    } in
    let (h', run, guards) = lock_is_free_lem free h refl r d y in
    let left : LockState = record {
      reservation = head_option s.queued_writers;
      lock_holder = none;
      queued_writers = other_writers s.queued_writers;
      waiting_readers = [];
      last_committed_timestamp = committed_at u s;
    } in
    (
      h',
      insert_lock_state key left locks,
      finished key u h h' locks s left (is_nil s.queued_writers) m g n o run,
      get_lock_state-insert key j left locks,
      guards,
    )

-- Finishing a transaction on a lock that another transaction has reserved and nobody holds panics.
pub update_locks_panics :
    (key : Key) (update_lock : UpdateLock) (h : Heap) (locks : Locks) (s : LockState)
    (r : LockTableGuardLink)
    → get_lock_state key locks ≡ some s
    → s.lock_holder ≡ none
    → s.reservation ≡ some r
    → update_locks key update_lock h locks ≡ panicked
unfolding update_locks lock_is_free released
update_locks_panics key (commit t ts) h locks s r g n m = ground arith
update_locks_panics key (abort t) h locks s r g n m = ground arith
