-- ===== src/TxnWait/Laws/Joined.antt =====
-- How the waits of src/txn_wait/txn_wait_queue.rs change when a transaction starts to wait.
use little_key_value_db.Prelude.{
  ◌≡◌, refl, sym, subst, inl, inr, true, List, [], ◌∷◌, ◌++◌, some, ◌==◌, ==_iff, Bool-cases, arith,
  Option-cases, some-injective, false, ◌∙◌,
}
use little_key_value_db.Storage.Txn.{Uuid}
use little_key_value_db.LockTable.State.Wake.{elem}
use little_key_value_db.TxnWait.Laws.{enqueue_and_push_lem}
use little_key_value_db.TxnWait.{
  enqueue_and_push, new_push, WaitingPushLink, TxnWaitQueue, get_pending_txn, contains_id,
}
use little_key_value_db.TxnWait.Laws.Sound.{WaitsFor, direct, through, AreSound}

elem-append :
    (p link : WaitingPushLink) (links : List WaitingPushLink)
    → elem p links ≡ true
    → elem p (links ++ (link ∷ [])) ≡ true
elem-append p link [] h = absurd (ground arith)
elem-append p link (l ∷ links) h = ground (arith, elem-append p link links)

-- Those that wait for a transaction still do after another one has started to wait.
pub still_pending :
    (pusher pushee other : Uuid) (link p : WaitingPushLink) (q : TxnWaitQueue)
    (links : List WaitingPushLink)
    → get_pending_txn other q ≡ some links
    → elem p links ≡ true
    → (links' : List WaitingPushLink) × (get_pending_txn other
          (enqueue_and_push pusher pushee link q)
        ≡ some links')
      × (elem p links' ≡ true)
still_pending pusher pushee other link p q links g e =
    let found = (enqueue_and_push_lem pusher pushee other link q).0 in
    elim (Bool-cases (pushee == other)) [
      | inr differ ↦ (links, found ∙ rw (differ) g, e)
      | inl same ↦
          let held : get_pending_txn pushee q ≡ some links = rw ((==_iff pushee other).0 same) g in
          (links ++ (link ∷ []), found ∙ rw (same, held) refl, elem-append p link links e)
    ]

-- No transaction waits with that push.
abbrev pub IsUnused : WaitingPushLink → TxnWaitQueue → Type 0
IsUnused link q =
    (pushee : Uuid) (links : List WaitingPushLink)
    → get_pending_txn pushee q ≡ some links
    → elem link links ≡ false

pub kept_push :
    (pusher pushee : Uuid) (link p : WaitingPushLink) (q : TxnWaitQueue)
    → (link == p) ≡ false
    → q.pushes p ≡ (enqueue_and_push pusher pushee link q).pushes p
kept_push pusher pushee link p q differ =
    sym ((enqueue_and_push_lem pusher pushee pushee link q).1 p ∙ rw (differ) refl)

elem-differs :
    (link p : WaitingPushLink) (links : List WaitingPushLink)
    → elem link links ≡ false
    → elem p links ≡ true
    → (link == p) ≡ false
elem-differs link p links n e = elim (Bool-cases (link == p)) [
  | inr differ ↦ differ
  | inl same ↦
      let there : elem link links ≡ true = rw ((==_iff link p).0 same) e in absurd (ground arith)
]

WaitsFor-enqueue_and_push :
    (pusher pushee : Uuid) (link : WaitingPushLink) (q : TxnWaitQueue) {a b : Uuid}
    → IsUnused link q
    → WaitsFor q a b
    → WaitsFor (enqueue_and_push pusher pushee link q) a b
WaitsFor-enqueue_and_push pusher pushee link q unused (direct {pushee = other} links p g e) =
    let (links', g', e') = still_pending pusher pushee other link p q links g e in
    let kept =
      kept_push pusher pushee link p q (elem-differs link p links (unused other links g) e) in
    subst (λ w. WaitsFor (enqueue_and_push pusher pushee link q) w.txn_id other) (sym kept)
      (direct links' p g' e')
WaitsFor-enqueue_and_push pusher pushee link q unused (through x y) =
    through (WaitsFor-enqueue_and_push pusher pushee link q unused x)
      (WaitsFor-enqueue_and_push pusher pushee link q unused y)

elem-before :
    (p link : WaitingPushLink) (links : List WaitingPushLink)
    → (link == p) ≡ false
    → elem p (links ++ (link ∷ [])) ≡ true
    → elem p links ≡ true
elem-before p link [] differ e = absurd (ground (arith, ==_iff link p, ==_iff p link))
elem-before p link (l ∷ links) differ e =
    ground (arith, elem-before p link links differ, ==_iff l p)

-- Another push that waits after the enqueueing did so before.
was_pending :
    (pusher pushee other : Uuid) (link p : WaitingPushLink) (q : TxnWaitQueue)
    (links : List WaitingPushLink)
    → (link == p) ≡ false
    → get_pending_txn other (enqueue_and_push pusher pushee link q) ≡ some links
    → elem p links ≡ true
    → (old : List WaitingPushLink) × (get_pending_txn other q ≡ some old) × (elem p old ≡ true)
was_pending pusher pushee other link p q links differ g e =
    let found = sym (enqueue_and_push_lem pusher pushee other link q).0 ∙ g in
    elim (Bool-cases (pushee == other)) [
      | inr foreign ↦ (links, sym (rw (foreign) refl) ∙ found, e)
      | inl same ↦
          let path : pushee ≡ other = (==_iff pushee other).0 same in
          elim (Option-cases (get_pending_txn pushee q)) [
            | inl nobody ↦
                let whole : link ∷ [] ≡ links =
                  some-injective _ _ (sym (rw (same, nobody) refl) ∙ found) in
                absurd (
                  ground (
                    arith,
                    elem-before p link [] differ (subst (λ l. elem p l ≡ true) (sym whole) e),
                  ))
            | inr (old, held) ↦
                let whole : old ++ (link ∷ []) ≡ links =
                  some-injective _ _ (sym (rw (same, held) refl) ∙ found) in
                (
                  old,
                  rw (sym path) held,
                  elem-before p link old differ (subst (λ l. elem p l ≡ true) (sym whole) e),
                )
          ]
    ]

-- What the pushes have recorded stays sound when a transaction starts to wait with a new push.
pub enqueue_and_push-AreSound :
    (pusher pushee : Uuid) (link : WaitingPushLink) (q : TxnWaitQueue)
    → IsUnused link q
    → AreSound q
    → AreSound (enqueue_and_push pusher pushee link q)
enqueue_and_push-AreSound pusher pushee link q unused s other id links p g e h =
    elim (Bool-cases (link == p)) [
      | inl same ↦
          let fresh : (enqueue_and_push pusher pushee link q).pushes p ≡ new_push pusher =
            (enqueue_and_push_lem pusher pushee pushee link q).1 p ∙ rw (same) refl in
          let none_recorded : contains_id id (new_push pusher).dependents ≡ true =
            subst (λ w. contains_id id w.dependents ≡ true) fresh h in
          absurd (ground arith)
      | inr differ ↦
          let kept = kept_push pusher pushee link p q differ in
          let (old, held, there) = was_pending pusher pushee other link p q links differ g e in
          subst (λ w. WaitsFor (enqueue_and_push pusher pushee link q) id w.txn_id) kept
            (WaitsFor-enqueue_and_push pusher pushee link q unused (
              s other id old p held there
                (subst (λ w. contains_id id w.dependents ≡ true) (sym kept) h)))
    ]
