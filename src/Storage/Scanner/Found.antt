-- ===== src/Storage/Scanner/Found.antt =====
-- The result of a scan of one key by src/storage/mvcc_scanner.rs, where the store holds an entry of
-- the key.
use little_key_value_db.Prelude.{
  ℕ, suc, lt, gt, ◌≡◌, refl, subst, ap, ◌∙◌, ◌⊎◌, inl, inr, true, false, List, [], ◌∷◌, ◌++◌,
  Option, some, done, ◌>>=◌, All, All-append, arith, Bool-cases,
}
use little_key_value_db.Hlc.Timestamp
use little_key_value_db.Hlc.Timestamp.{Timestamp, IsWord, get_intent_timestamp}
use little_key_value_db.Storage.Bytes.{Key, Value, bytes_eq, bytes_cmp}
use little_key_value_db.Storage.Bytes.Order.{bytes_eq_refl, bytes_cmp_refl, eq_of_bytes_eq}
use little_key_value_db.Storage.Key.{MvccKey, is_intent_key, create_intent_key}
use little_key_value_db.Storage.Txn.{Txn, UncommittedValue, TxnIntent}
use little_key_value_db.Storage.Store.{Serde}
use little_key_value_db.Storage.Iterator.{MvccIterator, new, is_sought, at_most}
use little_key_value_db.Storage.Iterator.Seek.{
  Entry, raw, raws, raws-append, last_or-IsWord, AreWords, Misses, at, last_or, current_key-at,
}
use little_key_value_db.Storage.Scanner
use little_key_value_db.Storage.Scanner.{
  MvccScanner, advance_loop, advance_to_next_key, scan_loop, scan, push_intent,
}
use little_key_value_db.Storage.Scanner.Get.{
  AreOf, AreAfter, after, ended, visible, scanning, round, ends, advances, gets_here, gets_later,
  older, none_older, gets_intent,
}

-- Every entry is of an earlier key.
abbrev pub AreBefore : Key → List Entry → Type 0
AreBefore key es = All (λ e. bytes_cmp e.0.key key ≡ lt) es

bytes_eq_sym : (a b : Key) → bytes_eq a b ≡ true → bytes_eq b a ≡ true
bytes_eq_sym a b h = subst (λ c. bytes_eq c a ≡ true) (eq_of_bytes_eq a b h) (bytes_eq_refl a)

not_eq_of_lt : (a b : Key) → bytes_cmp a b ≡ lt → bytes_eq a b ≡ false
not_eq_of_lt a b h = ground (arith, eq_of_bytes_eq a b, bytes_cmp_refl a, bytes_cmp_refl b)

not_eq_of_gt : (a b : Key) → bytes_cmp a b ≡ gt → bytes_eq a b ≡ false
not_eq_of_gt a b h = ground (arith, eq_of_bytes_eq a b, bytes_cmp_refl a, bytes_cmp_refl b)

-- No entry of another key is sought.
pub before-Misses : (k : MvccKey) (es : List Entry) → AreBefore k.key es → Misses k es
unfolding is_sought
before-Misses k [] a = tt
before-Misses k (e ∷ es) a = (rw (not_eq_of_lt e.0.key k.key a.0), before-Misses k es a.1)

pub after-Misses : (k : MvccKey) (es : List Entry) → AreAfter k.key es → Misses k es
unfolding is_sought
after-Misses k [] a = tt
after-Misses k (e ∷ es) a = (rw (not_eq_of_gt e.0.key k.key a.0), after-Misses k es a.1)

at_most-intent : (t : Timestamp) → at_most t get_intent_timestamp ≡ true
unfolding at_most Timestamp.cmp
at_most-intent t = ground arith

-- The search for the intent of a key takes any entry of the key.
pub sought_any :
    (key : Key) (e : Entry)
    → bytes_eq key e.0.key ≡ true
    → is_sought e.0 (create_intent_key key) ≡ true
unfolding is_sought
sought_any key e k = rw (bytes_eq_sym key e.0.key k, at_most-intent e.0.timestamp)

-- The versions of a key, split before the latest one that is visible.
abbrev pub Split : Key → Timestamp → List Entry → Type 0
Split key ts es =
    ((visible ts es ≡ []) × Misses (record { key = key; timestamp = ts }) es)
    ⊎ ((newer : List Entry) × (o : Entry) × (older : List Entry) × (es ≡ newer ++ (o ∷ older))
        × (visible ts es ≡ o ∷ [])
        × Misses (record { key = key; timestamp = ts }) newer
        × (is_sought o.0 (record { key = key; timestamp = ts }) ≡ true))

pub missed :
    (key : Key) (ts : Timestamp) (e : Entry)
    → bytes_eq key e.0.key ≡ true
    → at_most e.0.timestamp ts ≡ false
    → is_sought e.0 (record { key = key; timestamp = ts }) ≡ false
unfolding is_sought
missed key ts e k young = rw (young, bytes_eq_sym key e.0.key k)

pub split : (key : Key) (ts : Timestamp) (es : List Entry) → AreOf key es → Split key ts es
unfolding is_sought
split key ts [] a = inl (refl, tt)
split key ts (e ∷ es) a = elim (Bool-cases (at_most e.0.timestamp ts)) [
  | inl old ↦ inr ([], e, es, refl, rw old, tt, rw (bytes_eq_sym key e.0.key a.0, old))
  | inr young ↦ elim (split key ts es a.1) [
    | inl (empty, misses) ↦ inl (rw young empty, (missed key ts e a.0 young, misses))
    | inr (newer, o, older, cut, seen, misses, hit) ↦ inr (
      e ∷ newer,
      o,
      older,
      ap (◌∷◌ e) cut,
      rw young seen,
      (missed key ts e a.0 young, misses),
      hit,
    )
  ]
]

module _ (serde : Serde UncommittedValue) (txn : Option Txn) (key : Key) (ts : Timestamp) where
  abbrev pub S : MvccIterator → List (TxnIntent × Value) → List Entry → MvccScanner
  S = scanning serde txn key ts

  pub full :
      (fuel : ℕ) (it : MvccIterator) (o : Entry)
      → scan_loop serde (suc fuel) (S it [] (o ∷ [])) ≡ done (S it [] (o ∷ []))
  unfolding scan_loop
  full fuel it o = refl

  module _ (fuel : ℕ) (e : Entry) (block post : List Entry) (w : AreWords (e ∷ block))
      (v : AreWords post) (k : AreOf key (e ∷ block)) (a : AreAfter key post) where
    pub loop_here :
        is_intent_key e.0 ≡ false
        → at_most e.0.timestamp ts ≡ true
        → scan_loop serde (suc (suc fuel)) (S (at e (raws block ++ raws post)) [] [])
          ≡ done (S (after post) [] (e ∷ []))
    loop_here n h =
        round serde txn key ts (suc fuel) e (raws block ++ raws post) w.0 k.0
        ∙ rw
            (
              gets_here serde txn key ts e (raws block ++ raws post) w.0 n h,
              ◌>>=◌,
              advances serde txn key ts e block post [] (e ∷ []) w v k a,
            )
            (full fuel (after post) e)

    pub loop_intent :
        (u : UncommittedValue)
        → is_intent_key e.0 ≡ true
        → serde.from_slice e.1 ≡ some u
        → scan_loop serde (suc (suc fuel)) (S (at e (raws block ++ raws post)) [] [])
          ≡ done (
              S
                (after post)
                ((record { txn_meta = u.txn_metadata; key = e.0.key }, u.value) ∷ [])
                [])
    unfolding push_intent
    loop_intent u n d =
        round serde txn key ts (suc fuel) e (raws block ++ raws post) w.0 k.0
        ∙ rw
            (
              gets_intent serde txn key ts e (raws block ++ raws post) u w.0 n d,
              ◌>>=◌,
              advances serde txn key ts e block post
                  ((record { txn_meta = u.txn_metadata; key = e.0.key }, u.value) ∷ []) [] w v k a,
            )
            (ends serde txn key ts fuel post _ v a)

    pub loop_none :
        is_intent_key e.0 ≡ false
        → at_most e.0.timestamp ts ≡ false
        → Misses (record { key = key; timestamp = ts }) (e ∷ block)
        → scan_loop serde (suc (suc fuel)) (S (at e (raws block ++ raws post)) [] [])
          ≡ done (S ended [] [])
    unfolding advance_to_next_key advance_loop
    loop_none n h m =
        round serde txn key ts (suc fuel) e (raws block ++ raws post) w.0 k.0
        ∙ rw
            (
              gets_later serde txn key ts e (raws block ++ raws post) w.0 n k.0 h,
              ← raws-append block post,
              none_older serde txn key ts e (block ++ post) (w.0, words)
                  (
                    m.0,
                    All-append _ block post m.1
                        (after-Misses (record { key = key; timestamp = ts }) post a),
                  ),
              ◌>>=◌,
              current_key-at (last_or e (block ++ post)) []
                  (last_or-IsWord e (block ++ post) (w.0, words)),
            )
            (ends serde txn key ts fuel [] [] tt tt)
      where
        words : AreWords (block ++ post)
        words = All-append _ block post w.1 v

  pub loop_older :
      (fuel : ℕ) (e : Entry) (newer : List Entry) (o : Entry) (rest post : List Entry)
      → AreWords (e ∷ newer)
      → AreWords (o ∷ rest)
      → AreWords post
      → bytes_eq key e.0.key ≡ true
      → AreOf key (o ∷ rest)
      → AreAfter key post
      → is_intent_key e.0 ≡ false
      → at_most e.0.timestamp ts ≡ false
      → Misses (record { key = key; timestamp = ts }) (e ∷ newer)
      → is_sought o.0 (record { key = key; timestamp = ts }) ≡ true
      → scan_loop serde
          (suc (suc fuel))
          (S (at e (raws newer ++ (raw o ∷ (raws rest ++ raws post)))) [] [])
        ≡ done (S (after post) [] (o ∷ []))
  loop_older fuel e newer o rest post w x v k q a n h m hit =
      round serde txn key ts (suc fuel) e (raws newer ++ (raw o ∷ (raws rest ++ raws post))) w.0 k
      ∙ rw
          (
            gets_later serde txn key ts e (raws newer ++ (raw o ∷ (raws rest ++ raws post))) w.0 n k
                h,
            older serde txn key ts e newer o (raws rest ++ raws post) w x.0 m hit
                (bytes_eq_sym key o.0.key q.0),
            ◌>>=◌,
            advances serde txn key ts o rest post [] (o ∷ []) x v q a,
          )
          (full fuel (after post) o)

  -- The scan ends, with these results and intents.
  abbrev pub Finds : List Entry → List Entry → List (TxnIntent × Value) → Type 0
  Finds es results intents =
      (s : MvccScanner) × (scan serde (Scanner.new (new (raws es)) key (some key) ts 1 txn)
        ≡ done s)
      × (s.results ≡ results)
      × (s.found_intents ≡ intents)
