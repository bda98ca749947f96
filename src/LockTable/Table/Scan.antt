-- ===== src/LockTable/Table/Scan.antt =====
-- What a scan of the lock table of src/lock_table/lock_table.rs finds out about the locks.
use little_key_value_db.Prelude.{
  ◌≡◌, ◌∙◌, ap, subst, ==_iff, refl, sym, Bool, true, false, ◌||◌, not, [], ◌∷◌, Option, none, some,
  Outcome, done, panicked, unfinished, ◌>>=◌, if◌then◌else◌, arith, Bool-cases, Option-cases, inl,
  inr, ==_refl, ◌==◌,
}
use little_key_value_db.Storage.Bytes.{Key}
use little_key_value_db.Storage.Bytes.Order.{bytes_eq_refl}
use little_key_value_db.Storage.Txn.{Uuid}
use little_key_value_db.LockTable.Guard.{
  Heap, TxnLink, LockTableGuardLink, txn_of, set_guard, set_should_wait, update_wait_state,
  done_waiting, Range,
}
use little_key_value_db.LockTable.Guard
use little_key_value_db.LockTable.State
use little_key_value_db.LockTable.State.{
  LockState, get_holder_txn_id, get_reservation_txn_id, try_active_wait, is_some,
  bump_txn_write_timestamp,
}
use little_key_value_db.LockTable.State.Exclusive.{IsExclusive, try_active_wait_write}
use little_key_value_db.LockTable.Table.{
  Locks, get_lock_state, insert_lock_state, is_other, scan_and_enqueue, scan_spans, state_or_new,
}
use little_key_value_db.LockTable.Table.Locks.{get_lock_state-insert, is_taken}

-- Another transaction holds or has reserved the lock.
abbrev pub belongs_to_other : LockState → LockTableGuardLink → Heap → Bool
belongs_to_other s guard h =
    is_other (get_holder_txn_id s) (txn_of guard h).txn_id
    || is_other (get_reservation_txn_id s h) (txn_of guard h).txn_id

-- The call returns, and tells its request to wait exactly if it leaves the lock to another transaction.
abbrev pub waits_rightly : LockTableGuardLink → Outcome (Heap × LockState × Bool) → Bool
waits_rightly guard (done (h, s, b)) =
    if b then belongs_to_other s guard h else not (belongs_to_other s guard h)
waits_rightly guard panicked = false
waits_rightly guard unfinished = false

try_active_wait_decides :
    (s : LockState) (guard : LockTableGuardLink) (h : Heap)
    → IsExclusive s
    → (h.guards guard).messages ≡ 0
    → waits_rightly guard (try_active_wait s guard false h) ≡ true
unfolding get_holder_txn_id get_reservation_txn_id txn_of set_should_wait update_wait_state
try_active_wait_decides s guard h exclusive messages =
    let claimed : Heap =
      set_guard guard (record (h.guards guard) { messages = 1; wait_state = done_waiting })
        (bump_txn_write_timestamp s (h.guards guard).txn h) in
    rw (try_active_wait_write s guard h exclusive messages) (
      ground (
        arith,
        ==_refl guard,
        ==_refl (txn_of guard h).txn_id,
        ==_refl (txn_of guard claimed).txn_id,
      ))

txn_of-set_should_wait :
    (guard g : LockTableGuardLink) (b : Bool) (h : Heap)
    → txn_of g (set_should_wait guard b h) ≡ txn_of g h
unfolding txn_of set_should_wait
txn_of-set_should_wait guard g b h = elim (Bool-cases (guard == g)) [
  | inl same ↦ rw ((==_iff guard g).0 same, ==_refl g) refl
  | inr differs ↦ rw (differs) refl
]

reservation-set_should_wait :
    (s : LockState) (guard : LockTableGuardLink) (b : Bool) (h : Heap)
    → get_reservation_txn_id s (set_should_wait guard b h) ≡ get_reservation_txn_id s h
unfolding get_reservation_txn_id
reservation-set_should_wait s guard b h = elim (Option-cases s.reservation) [
  | inl free ↦ rw (free) refl
  | inr (r, reserved) ↦ rw (reserved, txn_of-set_should_wait guard r b h) refl
]

belongs_to_other-set_should_wait :
    (s : LockState) (guard : LockTableGuardLink) (b : Bool) (h : Heap)
    → belongs_to_other s guard (set_should_wait guard b h) ≡ belongs_to_other s guard h
belongs_to_other-set_should_wait s guard b h =
    rw (txn_of-set_should_wait guard guard b h, reservation-set_should_wait s guard b h) refl

-- What a scan of the lock of a key decides, and what it leaves.
abbrev pub decides : Key → LockTableGuardLink → Outcome (Heap × Locks × Bool) → Bool
decides key guard (done (h, locks, b)) =
    if b
    then is_taken key (txn_of guard h).txn_id h locks
    else not (is_taken key (txn_of guard h).txn_id h locks)
decides key guard panicked = false
decides key guard unfinished = false

-- `is_taken` on the entry of the key.
abbrev taken_in : Option LockState → Uuid → Heap → Bool
taken_in o id h =
    let s : LockState = elim o [ none ↦ State.new | some s ↦ s ] in
    is_other (get_holder_txn_id s) id || is_other (get_reservation_txn_id s h) id

is_taken-insert :
    (key : Key) (s : LockState) (id : Uuid) (h : Heap) (locks : Locks)
    → is_taken key id h (insert_lock_state key s locks)
      ≡ (is_other (get_holder_txn_id s) id || is_other (get_reservation_txn_id s h) id)
is_taken-insert key s id h locks =
    let found : get_lock_state key (insert_lock_state key s locks) ≡ some s =
      rw (get_lock_state-insert key key s locks, bytes_eq_refl key) refl in
    ap (λ o. taken_in o id h) found

-- The rest of the scan after the state of the lock is asked.
abbrev scan_asked :
    Key
    → LockTableGuardLink
    → Locks
    → Outcome (Heap × LockState × Bool)
    → Outcome (Heap × Locks × Bool)
scan_asked key guard locks o = do
  asked ← o
  let locks' : Locks = insert_lock_state key asked.1 locks
  elim asked.2 [
    | true ↦ done (set_should_wait guard true asked.0, locks', true)
    | false ↦ done (set_should_wait guard false asked.0, locks', false)
  ]

decides-scan_asked :
    (key : Key) (guard : LockTableGuardLink) (locks : Locks) (o : Outcome (Heap × LockState × Bool))
    → decides key guard (scan_asked key guard locks o) ≡ waits_rightly guard o
decides-scan_asked key guard locks panicked = refl
decides-scan_asked key guard locks unfinished = refl
decides-scan_asked key guard locks (done (h, s, true)) =
    is_taken-insert key s (txn_of guard (set_should_wait guard true h)).txn_id
      (set_should_wait guard true h) locks
    ∙ belongs_to_other-set_should_wait s guard true h
decides-scan_asked key guard locks (done (h, s, false)) = ap not (
    is_taken-insert key s (txn_of guard (set_should_wait guard false h)).txn_id
      (set_should_wait guard false h) locks
    ∙ belongs_to_other-set_should_wait s guard false h)

fresh_free : (id : Uuid) (h : Heap) → taken_in none id h ≡ false
unfolding get_holder_txn_id get_reservation_txn_id
fresh_free id h = refl

scan_absent :
    (txn : TxnLink) (span : Range) (link : LockTableGuardLink) (guard_id : Uuid) (h : Heap)
    (locks : Locks)
    → get_lock_state span.start_key locks ≡ none
    → decides span.start_key link (scan_and_enqueue txn (span ∷ []) false link guard_id h locks)
      ≡ true
unfolding scan_and_enqueue scan_spans
scan_absent txn span link guard_id h locks absent =
    let entered : Heap = set_guard link (Guard.new txn false (span ∷ []) guard_id) h in
    let run : scan_and_enqueue txn (span ∷ []) false link guard_id h locks
        ≡ done (set_should_wait link false entered, locks, false) =
      rw (absent, scan_and_enqueue, scan_spans) refl in
    rw (run) (
      ap
        (λ o. not (
          taken_in o (txn_of link (set_should_wait link false entered)).txn_id
            (set_should_wait link false entered)))
        absent
      ∙ ap not (
          fresh_free (txn_of link (set_should_wait link false entered)).txn_id
            (set_should_wait link false entered)))

scan_found :
    (txn : TxnLink) (span : Range) (link : LockTableGuardLink) (guard_id : Uuid) (h : Heap)
    (locks : Locks) (s : LockState)
    → get_lock_state span.start_key locks ≡ some s
    → scan_and_enqueue txn (span ∷ []) false link guard_id h locks
      ≡ scan_asked span.start_key link locks (
          try_active_wait s link false
            (set_guard link (Guard.new txn false (span ∷ []) guard_id) h))
unfolding scan_and_enqueue scan_spans
scan_found txn span link guard_id h locks s found = rw (found, scan_and_enqueue, scan_spans) refl

not_true→false : (b : Bool) → not b ≡ true → b ≡ false
not_true→false true h = ground arith
not_true→false false h = refl

-- The scan of a request that writes a single key returns, and tells the request to wait exactly if
-- another transaction holds or has reserved the lock of the key in the state that it leaves. The lock
-- of the key is not held and reserved at once.
pub scan_and_enqueue_lem :
    (txn : TxnLink) (span : Range) (link : LockTableGuardLink) (guard_id : Uuid) (h : Heap)
    (locks : Locks)
    → IsExclusive (state_or_new span.start_key locks)
    → decides span.start_key link (scan_and_enqueue txn (span ∷ []) false link guard_id h locks)
      ≡ true
unfolding scan_and_enqueue scan_spans
scan_and_enqueue_lem txn span link guard_id h locks exclusive =
    let entered : Heap = set_guard link (Guard.new txn false (span ∷ []) guard_id) h in
    elim (Option-cases (get_lock_state span.start_key locks)) [
      | inl absent ↦ scan_absent txn span link guard_id h locks absent
      | inr (s, found) ↦
          let empty : (entered.guards link).messages ≡ 0 = rw (==_refl link) refl in
          let alone : IsExclusive s =
            subst (λ o. IsExclusive (elim o [ none ↦ State.new | some s ↦ s ])) found exclusive in
          rw (scan_found txn span link guard_id h locks s found) (
            decides-scan_asked span.start_key link locks (try_active_wait s link false entered)
            ∙ try_active_wait_decides s link entered alone empty)
    ]

-- The scan that decides, as an equation.
pub decides-done :
    (key : Key) (guard : LockTableGuardLink) (o : Outcome (Heap × Locks × Bool))
    → decides key guard o ≡ true
    → (h : Heap) × (locks : Locks) × (o
        ≡ done (h, locks, is_taken key (txn_of guard h).txn_id h locks))
decides-done key guard (done (h, locks, true)) d = (h, locks, ap (λ b. done (h, locks, b)) (sym d))
decides-done key guard (done (h, locks, false)) d = (
  h,
  locks,
  ap (λ b. done (h, locks, b))
      (sym (not_true→false (is_taken key (txn_of guard h).txn_id h locks) d)),
)
decides-done key guard panicked d = absurd (ground arith)
decides-done key guard unfinished d = absurd (ground arith)
