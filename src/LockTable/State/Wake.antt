-- ===== src/LockTable/State/Wake.antt =====
-- What happens when a lock of src/lock_table/lock_table.rs becomes free: all waiting readers and the
-- first queued writer are woken.
use little_key_value_db.Prelude.{
  ℕ, ◌≡◌, refl, ap, ◌∙◌, Bool, true, false, ◌||◌, List, [], ◌∷◌, ◌++◌, Option, none, some, Outcome,
  done, panicked, ◌>>=◌, if◌then◌else◌, ◌==◌, arith, ==_iff, ==_refl, All, All-left, All-right,
}
use little_key_value_db.Storage.Txn.{TxnMetadata}
use little_key_value_db.LockTable.Guard.{
  Heap, LockTableGuardLink, LockTableGuard, done_waiting, set_guard, done_waiting_at_lock,
}
use little_key_value_db.LockTable.State.{
  LockState, is_some, lock_is_free, reserve_next, wake_all, bump_txn_write_timestamp,
}

abbrev pub elem : ℕ → List ℕ → Bool
elem p [] = false
elem p (q ∷ qs) = q == p || elem p qs

-- The links are to different guards.
abbrev pub AreDistinct : List LockTableGuardLink → Type 0
AreDistinct [] = Unit
AreDistinct (g ∷ gs) = (elem g gs ≡ false) × AreDistinct gs

-- The channels of the guards are empty.
abbrev pub AreReady : Heap → List LockTableGuardLink → Type 0
AreReady h gs = All (λ g. (h.guards g).messages ≡ 0) gs

-- A guard with the message that its wait is over.
abbrev pub woken : LockTableGuard → LockTableGuard
woken g = record g { messages = 1; wait_state = done_waiting }

ready_after :
    (h : Heap) (g : LockTableGuardLink) (gs : List LockTableGuardLink)
    → elem g gs ≡ false
    → AreReady h gs
    → AreReady (set_guard g (woken (h.guards g)) h) gs
ready_after h g [] n r = tt
ready_after h g (k ∷ gs) n r = (ground arith, ready_after h g gs (ground arith) r.1)

woken_merge :
    (h : Heap) (g : LockTableGuardLink) (gs : List LockTableGuardLink) (p : ℕ)
    → (if elem p gs
        then woken ((set_guard g (woken (h.guards g)) h).guards p)
        else (set_guard g (woken (h.guards g)) h).guards p)
      ≡ (if elem p (g ∷ gs) then woken (h.guards p) else h.guards p)
woken_merge h g gs p = ground (arith, ==_iff g p)

-- Every guard of the list is woken, and nothing else changes.
pub wake_all_lem :
    (gs : List LockTableGuardLink) (h : Heap)
    → AreDistinct gs
    → AreReady h gs
    → (h' : Heap) × (wake_all gs h ≡ done h')
      × ((p : ℕ) → h'.guards p ≡ (if elem p gs then woken (h.guards p) else h.guards p))
      × (h'.txns ≡ h.txns)
unfolding wake_all done_waiting_at_lock
wake_all_lem [] h d r = (h, refl, λ p. refl, refl)
wake_all_lem (g ∷ gs) h d r =
    let h1 : Heap = set_guard g (woken (h.guards g)) h in
    let (h', run, guards, txns) = wake_all_lem gs h1 d.1 (ready_after h g gs d.0 r.1) in
    (h', rw (r.0, ◌>>=◌) run, λ p. guards p ∙ woken_merge h g gs p, txns)

-- The first of the queued writers, as a list.
abbrev pub first_writer : List LockTableGuardLink → List LockTableGuardLink
first_writer [] = []
first_writer (w ∷ ws) = w ∷ []

abbrev pub other_writers : List LockTableGuardLink → List LockTableGuardLink
other_writers [] = []
other_writers (w ∷ ws) = ws

abbrev pub is_nil : List LockTableGuardLink → Bool
is_nil [] = true
is_nil (w ∷ ws) = false

abbrev pub head_option : List LockTableGuardLink → Option LockTableGuardLink
head_option [] = none
head_option (w ∷ ws) = some w

bump-guards :
    (s : LockState) (t : ℕ) (h : Heap) → (bump_txn_write_timestamp s t h).guards ≡ h.guards
unfolding bump_txn_write_timestamp
bump-guards s t h = ground arith

-- The heap after the first queued writer has taken the reservation.
abbrev pub reserved : LockState → List LockTableGuardLink → Heap → Heap
reserved s [] h = h
reserved s (w ∷ ws) h =
    set_guard w (woken (h.guards w)) (bump_txn_write_timestamp s (h.guards w).txn h)

reserve_next_lem :
    (s : LockState) (h : Heap) (q : List LockTableGuardLink)
    → s.queued_writers ≡ q
    → s.reservation ≡ none
    → AreReady h (first_writer q)
    → reserve_next s h
      ≡ done (
        reserved s q h,
        record s { reservation = head_option q; queued_writers = other_writers q },
        is_nil q,
      )
unfolding reserve_next done_waiting_at_lock
reserve_next_lem s h [] e n r = ground arith
reserve_next_lem s h (w ∷ ws) e n r = ground (arith, bump-guards s (h.guards w).txn h)

reserved-guards :
    (s : LockState) (q : List LockTableGuardLink) (h : Heap) (p : ℕ)
    → (reserved s q h).guards p
      ≡ (if elem p (first_writer q) then woken (h.guards p) else h.guards p)
reserved-guards s [] h p = refl
reserved-guards s (w ∷ ws) h p = ground (arith, bump-guards s (h.guards w).txn h, ==_iff w p)

elem-append : (p : ℕ) (xs ys : List ℕ) → elem p (xs ++ ys) ≡ (elem p xs || elem p ys)
elem-append p [] ys = refl
elem-append p (x ∷ xs) ys = ground (arith, elem-append p xs ys)

distinct-left : (xs ys : List ℕ) → AreDistinct (xs ++ ys) → AreDistinct xs
distinct-left [] ys d = tt
distinct-left (x ∷ xs) ys d = (ground (arith, elem-append x xs ys), distinct-left xs ys d.1)

-- An element of the right part is not in the left part.
distinct-apart :
    (xs ys : List ℕ) (p : ℕ) → AreDistinct (xs ++ ys) → elem p ys ≡ true → elem p xs ≡ false
distinct-apart [] ys p d m = refl
distinct-apart (x ∷ xs) ys p d m =
    ground (arith, distinct-apart xs ys p d.1, elem-append x xs ys, ==_iff x p)

still_ready :
    (h h' : Heap) (rs q : List LockTableGuardLink)
    → AreDistinct (rs ++ first_writer q)
    → AreReady h (first_writer q)
    → ((p : ℕ) → h'.guards p ≡ (if elem p rs then woken (h.guards p) else h.guards p))
    → AreReady h' (first_writer q)
still_ready h h' rs [] d r g = tt
still_ready h h' rs (w ∷ ws) d r g =
    (ground (arith, g w, distinct-apart rs (w ∷ []) w d, ==_refl w), tt)

freed :
    (s : LockState) (h h1 : Heap)
    → s.lock_holder ≡ none
    → s.reservation ≡ none
    → wake_all s.waiting_readers h ≡ done h1
    → lock_is_free s h ≡ reserve_next (record s { waiting_readers = [] }) h1
unfolding lock_is_free
freed s h h1 n m run =
    ap (λ (o : Option TxnMetadata). if is_some o then panicked else rest s.reservation) n
    ∙ ap rest m
    ∙ ap (λ (o : Outcome Heap). o >>= reserve_next (record s { waiting_readers = [] })) run
  where
    rest : Option LockTableGuardLink → Outcome (Heap × LockState × Bool)
    rest r =
        if is_some r
        then panicked
        else (wake_all s.waiting_readers h >>= reserve_next (record s { waiting_readers = [] }))

-- A lock that is neither held nor reserved wakes all its waiting readers and its first queued writer
-- and nobody else; the writer takes the reservation and leaves the queue, the order of the other
-- writers stays, and the call says whether there was no writer. The guards that are woken are different
-- and their channels are empty.
pub lock_is_free_lem :
    (s : LockState) (h : Heap)
    → s.lock_holder ≡ none
    → s.reservation ≡ none
    → AreDistinct (s.waiting_readers ++ first_writer s.queued_writers)
    → AreReady h (s.waiting_readers ++ first_writer s.queued_writers)
    → (h' : Heap) × (lock_is_free s h
        ≡ done (
          h',
          record s {
            reservation = head_option s.queued_writers;
            queued_writers = other_writers s.queued_writers;
            waiting_readers = [];
          },
          is_nil s.queued_writers,
        ))
      × ((p : ℕ)
          → h'.guards p ≡ (
              if elem p (s.waiting_readers ++ first_writer s.queued_writers)
              then woken (h.guards p)
              else h.guards p))
unfolding lock_is_free
lock_is_free_lem s h n m d r =
    let readers = s.waiting_readers in
    let q = s.queued_writers in
    let cleared : LockState = record s { waiting_readers = [] } in
    let (h1, run, guards, txns) =
      wake_all_lem readers h (distinct-left readers (first_writer q) d)
        (All-left _ readers (first_writer q) r) in
    let ready = still_ready h h1 readers q d (All-right _ readers (first_writer q) r) guards in
    (
      reserved cleared q h1,
      freed s h h1 n m run ∙ reserve_next_lem cleared h1 q refl m ready,
      λ p.
          reserved-guards cleared q h1 p
          ∙ ground (arith, guards p, elem-append p readers (first_writer q)),
    )
