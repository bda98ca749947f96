-- ===== src/TxnWait/Laws/Sound.antt =====
-- Whom the pushes of src/txn_wait/txn_wait_queue.rs record as dependents.
use little_key_value_db.Prelude.{
  ◌≡◌, refl, sym, subst, ◌⊎◌, inl, inr, true, ◌||◌, List, [], ◌∷◌, ◌++◌, some, if◌then◌else◌, ◌==◌,
  ==_iff, ==_refl, Bool-cases, arith, Option-cases,
}
use little_key_value_db.Storage.Txn.{Uuid}
use little_key_value_db.LockTable.State.Wake.{elem}
use little_key_value_db.TxnWait.{
  WaitingPushLink, TxnWaitQueue, get_pending_txn, set_push, dependents_of,
  get_transitive_dependents, contains_id, extend,
}

-- The first transaction waits for the second, at once or through others.
pub data WaitsFor (q : TxnWaitQueue) : Uuid → Uuid → Type 0 where
  direct :
      {pushee : Uuid} (links : _) (link : WaitingPushLink)
      → get_pending_txn pushee q ≡ some links
      → elem link links ≡ true
      → WaitsFor q (q.pushes link).txn_id pushee
  through : {a b c : Uuid} → WaitsFor q a b → WaitsFor q b c → WaitsFor q a c

-- What the pushes have recorded are transactions that wait for their pushers.
abbrev pub AreSound : TxnWaitQueue → Type 0
AreSound q =
    (pushee id : Uuid) (links : List WaitingPushLink) (link : WaitingPushLink)
    → get_pending_txn pushee q ≡ some links
    → elem link links ≡ true
    → contains_id id (q.pushes link).dependents ≡ true
    → WaitsFor q id (q.pushes link).txn_id

pub contains_id-append :
    (id : Uuid) (xs ys : List Uuid)
    → contains_id id (xs ++ ys) ≡ (contains_id id xs || contains_id id ys)
contains_id-append id [] ys = refl
contains_id-append id (x ∷ xs) ys = ground (arith, contains_id-append id xs ys)

-- An id that the search finds is that of a push, or one of its dependents.
found_at :
    (id : Uuid) (links : List WaitingPushLink) (q : TxnWaitQueue)
    → contains_id id (dependents_of links q) ≡ true
    → (link : WaitingPushLink) × (elem link links ≡ true)
      × (((q.pushes link).txn_id ≡ id) ⊎ (contains_id id (q.pushes link).dependents ≡ true))
unfolding dependents_of
found_at id [] q h = absurd (ground arith)
found_at id (link ∷ links) q h = elim (Bool-cases (contains_id id (q.pushes link).dependents)) [
  | inl recorded ↦ (link, ground (arith, ==_refl link), inr recorded)
  | inr other ↦ elim (Bool-cases ((q.pushes link).txn_id == id)) [
    | inl own ↦ (link, ground (arith, ==_refl link), inl ((==_iff _ id).0 own))
    | inr foreign ↦
        let (p, e, r) = found_at id links q (
          ground (
            arith,
            contains_id-append id ((q.pushes link).dependents ++ ((q.pushes link).txn_id ∷ []))
                (dependents_of links q),
            contains_id-append id (q.pushes link).dependents ((q.pushes link).txn_id ∷ []),
          )) in
        (p, ground arith, r)
  ]
]

-- Who is found as a dependent of a transaction does wait for it.
pub get_transitive_dependents-WaitsFor :
    (q : TxnWaitQueue) (pushee id : Uuid)
    → AreSound q
    → contains_id id (get_transitive_dependents pushee q) ≡ true
    → WaitsFor q id pushee
unfolding get_transitive_dependents
get_transitive_dependents-WaitsFor q pushee id s h =
    elim (Option-cases (get_pending_txn pushee q)) [
      | inl n ↦ absurd (ground arith)
      | inr (links, g) ↦
          let (link, e, r) = found_at id links q (ground arith) in
          elim r [
            | inl own ↦ subst (λ a. WaitsFor q a pushee) own (direct links link g e)
            | inr recorded ↦ through (s pushee id links link g e recorded) (direct links link g e)
          ]
    ]

contains_id-extend :
    (id : Uuid) (set xs : List Uuid)
    → contains_id id (extend set xs) ≡ (contains_id id set || contains_id id xs)
unfolding extend
contains_id-extend id set [] = ground arith
contains_id-extend id set (x ∷ xs) = ground (
  arith,
  contains_id-extend id (if contains_id x set then set else set ++ (x ∷ [])) xs,
  contains_id-append id set (x ∷ []),
  ==_iff x id,
)

-- The queue after a round of the search.
abbrev pub queried : Uuid → WaitingPushLink → TxnWaitQueue → TxnWaitQueue
queried txn_id link q =
    set_push link
      (record (q.pushes link) {
        dependents = extend (q.pushes link).dependents (get_transitive_dependents txn_id q);
      })
      q

same_txn :
    (q : TxnWaitQueue) (txn_id : Uuid) (link p : WaitingPushLink)
    → (q.pushes p).txn_id ≡ ((queried txn_id link q).pushes p).txn_id
same_txn q txn_id link p = ground (arith, ==_iff link p)

WaitsFor-queried :
    (q : TxnWaitQueue) (txn_id : Uuid) (link : WaitingPushLink) {a b : Uuid}
    → WaitsFor q a b
    → WaitsFor (queried txn_id link q) a b
unfolding get_pending_txn
WaitsFor-queried q txn_id link (direct {pushee} links p g e) =
    subst (λ a. WaitsFor (queried txn_id link q) a pushee) (sym (same_txn q txn_id link p))
      (direct links p g e)
WaitsFor-queried q txn_id link (through x y) =
    through (WaitsFor-queried q txn_id link x) (WaitsFor-queried q txn_id link y)

-- What a push has recorded after the round are waiters of its pusher before the round.
queried-recorded :
    (q : TxnWaitQueue) (link p : WaitingPushLink) (pushee id : Uuid) (links : List WaitingPushLink)
    → AreSound q
    → get_pending_txn pushee q ≡ some links
    → elem p links ≡ true
    → contains_id id ((queried (q.pushes link).txn_id link q).pushes p).dependents ≡ true
    → WaitsFor q id (q.pushes p).txn_id
queried-recorded q link p pushee id links s g e h = elim (Bool-cases (link == p)) [
  | inr differ ↦ s pushee id links p g e (ground arith)
  | inl same ↦
      let path : link ≡ p = (==_iff link p).0 same in
      elim (Bool-cases (contains_id id (q.pushes p).dependents)) [
        | inl old ↦ s pushee id links p g e old
        | inr young ↦
            subst (λ l. WaitsFor q id (q.pushes l).txn_id) path
              (get_transitive_dependents-WaitsFor q (q.pushes link).txn_id id s (
                ground (
                  arith,
                  path,
                  contains_id-extend id (q.pushes link).dependents
                      (get_transitive_dependents (q.pushes link).txn_id q),
                )))
      ]
]

pub queried-AreSound :
    (q : TxnWaitQueue) (link : WaitingPushLink)
    → AreSound q
    → AreSound (queried (q.pushes link).txn_id link q)
unfolding get_pending_txn
queried-AreSound q link s pushee id links p g e h =
    subst (λ b. WaitsFor (queried (q.pushes link).txn_id link q) id b)
      (same_txn q (q.pushes link).txn_id link p)
      (WaitsFor-queried q (q.pushes link).txn_id link
        (queried-recorded q link p pushee id links s g e h))
