-- ===== src/Storage/Scanner/Get.antt =====
-- A scan of one key by src/storage/mvcc_scanner.rs: what it finds, on every listing of encoded
-- versioned keys.
use little_key_value_db.Prelude.{
  ℕ, suc, lt, eq, gt, ◌≡◌, refl, sym, subst, ap, ◌∙◌, ◌⊎◌, true, false, List, [], ◌∷◌, ◌++◌, Option,
  none, some, done, ◌>>=◌, if◌then◌else◌, All, arith, Bool-cases, inl, inr,
}
use little_key_value_db.Hlc.Timestamp
use little_key_value_db.Hlc.Timestamp.{Timestamp, IsWord}
use little_key_value_db.Hlc.Timestamp.Order.{gt_of_lt, lt_of_gt}
use little_key_value_db.Storage.Bytes.{Key, Value, bytes_eq, bytes_cmp}
use little_key_value_db.Storage.Bytes.Order.{bytes_cmp_refl, eq_of_bytes_eq}
use little_key_value_db.Storage.Key.{is_intent_key}
use little_key_value_db.Storage.Txn.{Txn, UncommittedValue, TxnIntent}
use little_key_value_db.Storage.Store.{Serde}
use little_key_value_db.Storage.Iterator.{
  KvBytes, MvccIterator, valid, is_sought, at_most, current_value_serialized,
}
use little_key_value_db.Storage.Iterator.Seek.{
  Entry, raw, raws, AreWords, Misses, at, last_or, convert-raw, current_key-at, seek_ge-later,
  seek_ge-Misses,
}
use little_key_value_db.Storage.Scanner.{
  MvccScanner, advance_loop, advance_to_next_key, get_current_key, scan_loop, is_past_end,
  push_current, push_intent, seek_older_version,
}

-- Every entry is a version, or the intent, of that key.
abbrev pub AreOf : Key → List Entry → Type 0
AreOf key es = All (λ e. bytes_eq key e.0.key ≡ true) es

-- Every entry is of a later key.
abbrev pub AreAfter : Key → List Entry → Type 0
AreAfter key es = All (λ e. bytes_cmp e.0.key key ≡ gt) es

-- An exhausted iterator
abbrev pub ended : MvccIterator
ended = record { it = []; curr_kv = none; is_done = true }

abbrev pub after : List Entry → MvccIterator
after [] = ended
after (e ∷ es) = at e (raws es)

advance_loop-block :
    (key : Key) (block post : List Entry)
    → AreWords block
    → AreOf key block
    → advance_loop key (raws block ++ raws post) ≡ advance_loop key (raws post)
unfolding advance_loop
advance_loop-block key [] post w a = refl
advance_loop-block key (e ∷ block) post w a =
    rw (convert-raw e w.0, ◌>>=◌, a.0) (advance_loop-block key block post w.1 a.1)

not_of_after : (key : Key) (e : Key) → bytes_cmp e key ≡ gt → bytes_eq key e ≡ false
not_of_after key e h = elim (Bool-cases (bytes_eq key e)) [
  | inl same ↦ absurd (
      eq-ne-gt (
        sym (subst (λ k. bytes_cmp k key ≡ eq) (eq_of_bytes_eq key e same) (bytes_cmp_refl key))
        ∙ h))
  | inr other ↦ other
]
  where
    eq-ne-gt : ¬ (eq ≡ gt)
    eq-ne-gt p = cc

advance_loop-after :
    (key : Key) (post : List Entry)
    → AreWords post
    → AreAfter key post
    → advance_loop key (raws post) ≡ done (after post)
unfolding advance_loop
advance_loop-after key [] w a = refl
advance_loop-after key (e ∷ post) w a = rw (convert-raw e w.0, ◌>>=◌, not_of_after key e.0.key a.0)

-- The latest of the versions at or before a timestamp, in a listing from the latest on.
abbrev pub visible : Timestamp → List Entry → List Entry
visible ts [] = []
visible ts (e ∷ es) = if at_most e.0.timestamp ts then e ∷ [] else visible ts es

at_most→cmp :
    (t ts : Timestamp) → at_most t ts ≡ true → (Timestamp.cmp ts t ≡ gt) ⊎ (Timestamp.cmp ts t ≡ eq)
unfolding at_most
at_most→cmp t ts h = ground (arith, gt_of_lt ts t)

not_at_most→cmp : (t ts : Timestamp) → at_most t ts ≡ false → Timestamp.cmp ts t ≡ lt
unfolding at_most
not_at_most→cmp t ts h = ground (arith, lt_of_gt t ts)

-- A scan of the one key `key` for one result.
module _ (serde : Serde UncommittedValue) (txn : Option Txn) (key : Key) (ts : Timestamp) where
  abbrev pub scanning : MvccIterator → List (TxnIntent × Value) → List Entry → MvccScanner
  scanning it intents results = record {
    it = it;
    txn = txn;
    start_key = key;
    end_key = some key;
    timestamp = ts;
    found_intents = intents;
    max_records_count = 1;
    results = results;
  }

  not_past :
      (it : MvccIterator) (e : Entry)
      → bytes_eq key e.0.key ≡ true
      → is_past_end (scanning it [] []) e.0 ≡ false
  unfolding is_past_end
  not_past it e k = ground (arith, eq_of_bytes_eq key e.0.key, bytes_cmp_refl key)

  past :
      (it : MvccIterator) (intents : List (TxnIntent × Value)) (e : Entry)
      → bytes_cmp e.0.key key ≡ gt
      → is_past_end (scanning it intents []) e.0 ≡ true
  unfolding is_past_end
  past it intents e a = rw (a, is_past_end)

  -- One round of the loop, on an entry that is not past the end.
  pub round_within :
      (fuel : ℕ) (e : Entry) (rest : List KvBytes)
      → IsWord e.0.timestamp
      → is_past_end (scanning (at e rest) [] []) e.0 ≡ false
      → scan_loop serde (suc fuel) (scanning (at e rest) [] []) ≡ (do
        got ← get_current_key serde (scanning (at e rest) [] [])
        advanced ← advance_to_next_key got.0
        scan_loop serde fuel advanced)
  unfolding scan_loop valid
  round_within fuel e rest w p = rw (current_key-at e rest w, ◌>>=◌, p)

  pub round :
      (fuel : ℕ) (e : Entry) (rest : List KvBytes)
      → IsWord e.0.timestamp
      → bytes_eq key e.0.key ≡ true
      → scan_loop serde (suc fuel) (scanning (at e rest) [] []) ≡ (do
        got ← get_current_key serde (scanning (at e rest) [] [])
        advanced ← advance_to_next_key got.0
        scan_loop serde fuel advanced)
  round fuel e rest w k = round_within fuel e rest w (not_past (at e rest) e k)

  -- Past the key, the scan ends with what it has.
  pub ends :
      (fuel : ℕ) (post : List Entry) (intents : List (TxnIntent × Value))
      → AreWords post
      → AreAfter key post
      → scan_loop serde (suc fuel) (scanning (after post) intents [])
        ≡ done (scanning (after post) intents [])
  unfolding scan_loop valid
  ends fuel [] intents w a = refl
  ends fuel (p ∷ post) intents w a =
      rw (current_key-at p (raws post) w.0, ◌>>=◌, past (after (p ∷ post)) intents p a.0)

  pub advances :
      (e : Entry) (block post : List Entry) (intents : List (TxnIntent × Value))
      (results : List Entry)
      → AreWords (e ∷ block)
      → AreWords post
      → AreOf key (e ∷ block)
      → AreAfter key post
      → advance_to_next_key (scanning (at e (raws block ++ raws post)) intents results)
        ≡ done (scanning (after post) intents results)
  unfolding advance_to_next_key
  advances e block post intents results w v k a = rw (
    current_key-at e (raws block ++ raws post) w.0,
    ◌>>=◌,
    ← eq_of_bytes_eq key e.0.key k.0,
    advance_loop-block key block post w.1 k.1,
    advance_loop-after key post v a,
  )

  pushes :
      (e : Entry) (rest : List KvBytes)
      → IsWord e.0.timestamp
      → push_current (scanning (at e rest) [] []) ≡ done (scanning (at e rest) [] (e ∷ []))
  unfolding push_current
  pushes e rest w = rw (current_key-at e rest w)

  -- A version that is at or before the timestamp is taken at once.
  pub gets_here :
      (e : Entry) (rest : List KvBytes)
      → IsWord e.0.timestamp
      → is_intent_key e.0 ≡ false
      → at_most e.0.timestamp ts ≡ true
      → get_current_key serde (scanning (at e rest) [] [])
        ≡ done (scanning (at e rest) [] (e ∷ []), true)
  unfolding get_current_key
  gets_here e rest w n h = elim (at_most→cmp e.0.timestamp ts h) [
    | inl g ↦ rw (current_key-at e rest w, ◌>>=◌, n, g, pushes e rest w)
    | inr q ↦ rw (current_key-at e rest w, ◌>>=◌, n, q, pushes e rest w)
  ]

  -- Before a later version the scan looks for an older one.
  pub gets_later :
      (e : Entry) (rest : List KvBytes)
      → IsWord e.0.timestamp
      → is_intent_key e.0 ≡ false
      → bytes_eq key e.0.key ≡ true
      → at_most e.0.timestamp ts ≡ false
      → get_current_key serde (scanning (at e rest) [] [])
        ≡ seek_older_version (scanning (at e rest) [] []) key ts
  unfolding get_current_key
  gets_later e rest w n k h =
      rw (current_key-at e rest w, ◌>>=◌, n, not_at_most→cmp e.0.timestamp ts h)
        (ap (λ k'. seek_older_version (scanning (at e rest) [] []) k' ts)
          (sym (eq_of_bytes_eq key e.0.key k)))

  pub older :
      (e : Entry) (newer : List Entry) (o : Entry) (rest : List KvBytes)
      → AreWords (e ∷ newer)
      → IsWord o.0.timestamp
      → Misses (record { key = key; timestamp = ts }) (e ∷ newer)
      → is_sought o.0 (record { key = key; timestamp = ts }) ≡ true
      → bytes_eq o.0.key key ≡ true
      → seek_older_version (scanning (at e (raws newer ++ (raw o ∷ rest))) [] []) key ts
        ≡ done (scanning (at o rest) [] (o ∷ []), true)
  unfolding seek_older_version
  older e newer o rest w v m h q = rw (
    seek_ge-later (record { key = key; timestamp = ts }) e newer o rest w m v h,
    ◌>>=◌,
    current_key-at o rest v,
    q,
  )

  -- Where no version is at or before the timestamp, the iterator ends on the last entry of all.
  pub none_older :
      (e : Entry) (es : List Entry)
      → AreWords (e ∷ es)
      → Misses (record { key = key; timestamp = ts }) (e ∷ es)
      → seek_older_version (scanning (at e (raws es)) [] []) key ts
        ≡ done (scanning (at (last_or e es) []) [] [], false)
  unfolding seek_older_version
  none_older e es w m = rw (seek_ge-Misses (record { key = key; timestamp = ts }) e es w m)

  -- An intent is noted and not taken.
  pub gets_intent :
      (e : Entry) (rest : List KvBytes) (u : UncommittedValue)
      → IsWord e.0.timestamp
      → is_intent_key e.0 ≡ true
      → serde.from_slice e.1 ≡ some u
      → get_current_key serde (scanning (at e rest) [] [])
        ≡ done (push_intent (scanning (at e rest) [] []) e.0 u, false)
  unfolding get_current_key current_value_serialized
  gets_intent e rest u w n d = rw (current_key-at e rest w, ◌>>=◌, n, d)
