-- ===== src/Storage/Scanner/Finish.antt =====
-- The scan of src/storage/mvcc_scanner.rs always ends: on every store, range and timestamp.
use little_key_value_db.Prelude.{
  ℕ, zero, suc, ◌≤◌, ◌<◌, ◌≡◌, ◌≢◌, ◌⊎◌, subst, refl, inl, inr, Bool, true, false, not, List, [],
  ◌∷◌, Option, none, some, Outcome, done, panicked, unfinished, ◌>>=◌, unwrap, if◌then◌else◌, ◌==◌,
  length, arith, Ordering, lt, eq, gt,
}
use little_key_value_db.Hlc.Timestamp
use little_key_value_db.Storage.Bytes.{Key, bytes_eq}
use little_key_value_db.Storage.Key.{MvccKey, is_intent_key, create_intent_key}
use little_key_value_db.Storage.Txn.{UncommittedValue}
use little_key_value_db.Storage.Store.{Serde}
use little_key_value_db.Storage.Iterator.{
  KvBytes, MvccIterator, seek_loop, seek_ge, is_sought, convert_raw_key_to_mvcc_key, current_key,
  current_value, current_value_serialized, valid,
}
use little_key_value_db.Storage.Scanner.{
  MvccScanner, push_current, push_intent, seek_older_version, get_current_key, advance_loop,
  advance_to_next_key, scan_loop, scan, is_past_end,
}

-- The call returns or panics, and what it returns has the property.
abbrev Ends {ℓ} : {A : Type ℓ} → (A → Type 0) → Outcome A → Type 0
Ends P (done a) = P a
Ends P panicked = Unit
Ends P unfinished = ⊥

Ends-bind {ℓ κ} :
    {A : Type ℓ} {B : Type κ} (P : A → Type 0) (Q : B → Type 0) (o : Outcome A) (f : A → Outcome B)
    → Ends P o
    → ((a : A) → P a → Ends Q (f a))
    → Ends Q (o >>= f)
Ends-bind P Q (done a) f p k = k a p
Ends-bind P Q panicked f p k = tt
Ends-bind P Q unfinished f p k = absurd p

unwrap-Ends {ℓ} : {A : Type ℓ} (o : Option A) → Ends (λ a. Unit) (unwrap o)
unwrap-Ends none = tt
unwrap-Ends (some a) = tt

abbrev AtMost : ℕ → MvccIterator × Bool → Type 0
AtMost n r = length r.0.it ≤ n

Ends-weaken {ℓ} :
    {A : Type ℓ} (P Q : A → Type 0) (o : Outcome A) → Ends P o → ((a : A) → P a → Q a) → Ends Q o
Ends-weaken P Q (done a) p k = k a p
Ends-weaken P Q panicked p k = tt
Ends-weaken P Q unfinished p k = absurd p

branch {ℓ} :
    {A : Type ℓ} (P : A → Type 0) (b : Bool) (x y : Outcome A)
    → Ends P x
    → Ends P y
    → Ends P (if b then x else y)
branch P true x y p q = p
branch P false x y p q = q

branch_on {ℓ} :
    {A : Type ℓ} (P : A → Type 0) (b : Bool) (x y : Outcome A)
    → (b ≡ true → Ends P x)
    → (b ≡ false → Ends P y)
    → Ends P (if b then x else y)
branch_on P true x y p q = p refl
branch_on P false x y p q = q refl

convert-Ends : (raw : _) → Ends (λ k. Unit) (convert_raw_key_to_mvcc_key raw)
unfolding convert_raw_key_to_mvcc_key
convert-Ends raw = unwrap-Ends _

current_key-Ends : (i : MvccIterator) → Ends (λ k. Unit) (current_key i)
unfolding current_key
current_key-Ends i =
    Ends-bind (λ k. Unit) (λ k. Unit) _ _ (unwrap-Ends i.curr_kv) (λ kv u. convert-Ends kv.0)

seek_step :
    (kv : KvBytes) (rest : List KvBytes) (key : MvccKey) (b : Bool)
    → Ends (AtMost (length rest)) (seek_loop rest (some kv) key)
    → Ends (AtMost (suc (length rest))) (elim b [
      | true ↦ done (record { it = rest; curr_kv = some kv; is_done = false }, true)
      | false ↦ seek_loop rest (some kv) key
    ])
seek_step kv rest key true h = omega arith
seek_step kv rest key false h = Ends-weaken (AtMost (length rest)) _ _ h (λ a l. omega arith)

seek_loop-Ends :
    (kvs : List KvBytes) (curr : Option KvBytes) (key : MvccKey)
    → Ends (AtMost (length kvs)) (seek_loop kvs curr key)
unfolding seek_loop
seek_loop-Ends [] curr key = omega arith
seek_loop-Ends (kv ∷ rest) curr key =
    Ends-bind (λ k. Unit) (AtMost (suc (length rest))) _ _ (convert-Ends kv.0)
      (λ k u. seek_step kv rest key (is_sought k key) (seek_loop-Ends rest (some kv) key))

seek_ge-Ends : (i : MvccIterator) (key : MvccKey) → Ends (AtMost (length i.it)) (seek_ge i key)
unfolding seek_ge
seek_ge-Ends i key =
    branch (AtMost (length i.it)) (valid i) _ _
      (Ends-bind (λ k. Unit) (AtMost (length i.it)) _ _ (current_key-Ends i)
        (λ k u.
          branch (AtMost (length i.it)) (is_sought k key) _ _ (omega arith)
            (seek_loop-Ends i.it i.curr_kv key)))
      (omega arith)

-- The scanner's iterator has at most that many pairs to come.
abbrev Within : ℕ → MvccScanner → Type 0
Within n s = length s.it.it ≤ n

abbrev Got : ℕ → MvccScanner × Bool → Type 0
Got n r = length r.0.it.it ≤ n

push_current-Ends : (s : MvccScanner) → Ends (Within (length s.it.it)) (push_current s)
unfolding push_current current_value
push_current-Ends s =
    Ends-bind (λ k. Unit) (Within (length s.it.it)) _ _ (current_key-Ends s.it)
      (λ k u.
        Ends-bind (λ k. Unit) (Within (length s.it.it)) _ _
          (Ends-bind (λ k. Unit) (λ k. Unit) _ _ (unwrap-Ends s.it.curr_kv) (λ kv u. tt))
          (λ v u. omega arith))

pushed-Ends :
    (n : ℕ) (s : MvccScanner) → Within n s → Ends (Got n) (push_current s >>= λ p. done (p, true))
pushed-Ends n s w =
    Ends-bind (Within (length s.it.it)) (Got n) _ _ (push_current-Ends s) (λ p l. omega arith)

seek_older_version-Ends :
    (s : MvccScanner) (key : Key) (ts : Timestamp.Timestamp)
    → Ends (Got (length s.it.it)) (seek_older_version s key ts)
unfolding seek_older_version
seek_older_version-Ends s key ts =
    Ends-bind (AtMost (length s.it.it)) (Got (length s.it.it)) _ _
      (seek_ge-Ends s.it (record { key = key; timestamp = ts }))
      (λ r l.
        branch (Got (length s.it.it)) r.1 _ _
          (Ends-bind (λ k. Unit) (Got (length s.it.it)) _ _ (current_key-Ends r.0)
            (λ k u.
              branch (Got (length s.it.it)) (bytes_eq k.key key) _ _
                (pushed-Ends (length s.it.it) (record s { it = r.0 }) l) l))
          l)

by_order :
    (n : ℕ) (o : Ordering) (s : MvccScanner) (x : Outcome (MvccScanner × Bool))
    → Within n s
    → Ends (Got n) x
    → Ends (Got n) (elim o [
      | gt ↦ push_current s >>= λ pushed. done (pushed, true)
      | lt ↦ x
      | eq ↦ push_current s >>= λ pushed. done (pushed, true)
    ])
by_order n gt s x w h = pushed-Ends n s w
by_order n lt s x w h = h
by_order n eq s x w h = pushed-Ends n s w

current_value_serialized-Ends :
    (serde : Serde UncommittedValue) (i : MvccIterator)
    → Ends (λ v. Unit) (current_value_serialized serde i)
unfolding current_value_serialized
current_value_serialized-Ends serde i =
    Ends-bind (λ k. Unit) (λ v. Unit) _ _ (unwrap-Ends i.curr_kv) (λ kv u. unwrap-Ends _)

get_current_key-Ends :
    (serde : Serde UncommittedValue) (s : MvccScanner)
    → Ends (Got (length s.it.it)) (get_current_key serde s)
unfolding get_current_key push_intent
get_current_key-Ends serde s =
    Ends-bind (λ k. Unit) (Got (length s.it.it)) _ _ (current_key-Ends s.it)
      (λ k u.
        branch (Got (length s.it.it)) (is_intent_key k) _ _
          (Ends-bind (λ k. Unit) (Got (length s.it.it)) _ _
            (current_value_serialized-Ends serde s.it) (λ v u. omega arith))
          (by_order (length s.it.it) (Timestamp.cmp s.timestamp k.timestamp) s _ (omega arith)
            (seek_older_version-Ends s k.key s.timestamp)))

-- The iterator has ended, or has fewer than that many pairs to come.
abbrev Advanced : ℕ → MvccIterator → Type 0
Advanced n i = (i.is_done ≡ true) ⊎ (length i.it < n)

advance_step :
    (kv : KvBytes) (rest : List KvBytes) (key : Key) (b : Bool)
    → Ends (Advanced (length rest)) (advance_loop key rest)
    → Ends (Advanced (suc (length rest))) (elim b [
      | true ↦ advance_loop key rest
      | false ↦ done (record { it = rest; curr_kv = some kv; is_done = false })
    ])
advance_step kv rest key false h = inr (omega arith)
advance_step kv rest key true h = Ends-weaken (Advanced (length rest)) _ _ h (λ i a. ground arith)

advance_loop-Ends :
    (key : Key) (kvs : List KvBytes) → Ends (Advanced (length kvs)) (advance_loop key kvs)
unfolding advance_loop
advance_loop-Ends key [] = inl refl
advance_loop-Ends key (kv ∷ rest) =
    Ends-bind (λ k. Unit) (Advanced (suc (length rest))) _ _ (convert-Ends kv.0)
      (λ k u. advance_step kv rest key (bytes_eq key k.key) (advance_loop-Ends key rest))

advance_to_next_key-Ends :
    (s : MvccScanner) → Ends (λ r. Advanced (length s.it.it) r.it) (advance_to_next_key s)
unfolding advance_to_next_key valid
advance_to_next_key-Ends s =
    branch_on (λ r. Advanced (length s.it.it) r.it) (not s.it.is_done) _ _
      (λ open_yet.
        Ends-bind (λ k. Unit) (λ r. Advanced (length s.it.it) r.it) _ _ (current_key-Ends s.it)
          (λ k u.
            Ends-bind (Advanced (length s.it.it)) (λ r. Advanced (length s.it.it) r.it) _ _
              (advance_loop-Ends k.key s.it.it) (λ i a. a)))
      (λ ended. inl (ground arith))

scan_loop-Ends :
    (serde : Serde UncommittedValue) (fuel : ℕ) (s : MvccScanner)
    → (s.it.is_done ≡ true) ⊎ (length s.it.it < fuel)
    → Ends (λ r. Unit) (scan_loop serde (suc fuel) s)
unfolding scan_loop valid
scan_loop-Ends serde zero s w =
    branch (λ r. Unit) (length s.results == s.max_records_count) _ _ tt
      (branch_on (λ r. Unit) (not (valid s.it)) _ _ (λ over. tt)
        (λ open_yet. absurd (ground arith)))
scan_loop-Ends serde (suc fuel) s w =
    branch (λ r. Unit) (length s.results == s.max_records_count) _ _ tt
      (branch_on (λ r. Unit) (not (valid s.it)) _ _ (λ over. tt)
        (λ open_yet.
          Ends-bind (λ k. Unit) (λ r. Unit) _ _ (current_key-Ends s.it)
            (λ k u.
              branch (λ r. Unit) (is_past_end s k) _ _ tt
                (Ends-bind (Got (length s.it.it)) (λ r. Unit) _ _ (get_current_key-Ends serde s)
                  (λ g l.
                    Ends-bind (λ r. Advanced (length g.0.it.it) r.it) (λ r. Unit) _ _
                      (advance_to_next_key-Ends g.0)
                      (λ r a. scan_loop-Ends serde fuel r (ground arith)))))))

-- A scan always returns or panics: on every store, range, timestamp and number of records, its loop
-- ends within the fuel.
pub scan_finishes : (serde : Serde UncommittedValue) (s : MvccScanner) → scan serde s ≢ unfinished
unfolding scan
scan_finishes serde s e = subst (Ends (λ r. Unit)) e (
    Ends-bind (AtMost (length s.it.it)) (λ r. Unit) _ _
      (seek_ge-Ends s.it (create_intent_key s.start_key))
      (λ r l.
        scan_loop-Ends serde (suc (length s.it.it)) (record s { it = r.0 }) (inr (omega arith))))
