-- ===== src/Storage/Scanner/Latest.antt =====
-- A scan of one key by src/storage/mvcc_scanner.rs finds the latest version at or before its
-- timestamp.
use little_key_value_db.Prelude.{
  ℕ, suc, ◌≡◌, refl, sym, subst, ap, ◌∙◌, inl, inr, true, false, List, [], ◌∷◌, ◌++◌, Option, some,
  done, All-left, All-right, append_assoc, length, Bool-cases,
}
use little_key_value_db.Hlc.Timestamp.{Timestamp}
use little_key_value_db.Storage.Bytes.{Key}
use little_key_value_db.Storage.Key.{is_intent_key, create_intent_key}
use little_key_value_db.Storage.Txn.{Txn, UncommittedValue}
use little_key_value_db.Storage.Store.{Serde}
use little_key_value_db.Storage.Iterator.{MvccIterator, new, at_most, is_sought}
use little_key_value_db.Storage.Iterator.Seek.{
  Entry, raw, raws, raws-append, AreWords, at, seek_ge-new,
}
use little_key_value_db.Storage.Scanner
use little_key_value_db.Storage.Scanner.{scan_loop, scan}
use little_key_value_db.Storage.Scanner.Get.{AreOf, AreAfter, visible, after, ended}
use little_key_value_db.Storage.Scanner.Found.{
  AreBefore, Finds, S, Split, split, before-Misses, sought_any, missed, loop_here, loop_none,
  loop_older, loop_intent,
}

-- The listing is that of a store in order: entries of earlier keys, then `e` and the other entries of
-- the key, then entries of later keys; all times fit their words.
pub record IsListing (key : Key) (pre : List Entry) (e : Entry) (block post : List Entry)
    : Type 0 where
  pub words_before : AreWords pre
  pub words : AreWords (e ∷ block)
  pub words_after : AreWords post
  pub before : AreBefore key pre
  pub of_key : AreOf key (e ∷ block)
  pub after_key : AreAfter key post

abbrev pub listing : List Entry → Entry → List Entry → List Entry → List Entry
listing pre e block post = pre ++ (e ∷ (block ++ post))

module _ (serde : Serde UncommittedValue) (txn : Option Txn) (key : Key) (ts : Timestamp) where
  starts :
      (pre : List Entry) (e : Entry) (block post : List Entry)
      → IsListing key pre e block post
      → scan serde (Scanner.new (new (raws (listing pre e block post))) key (some key) ts 1 txn)
        ≡ scan_loop serde
            (suc (suc (length (new (raws (listing pre e block post))).it)))
            (S serde txn key ts (at e (raws block ++ raws post)) [] [])
  unfolding scan
  starts pre e block post l = rw (
    ap new (raws-append pre (e ∷ (block ++ post))),
    seek_ge-new (create_intent_key key) pre e (raws (block ++ post)) l.words_before
        (before-Misses (create_intent_key key) pre l.before) l.words.0
        (sought_any key e l.of_key.0),
    raws-append block post,
  )

  -- The versions of the key, the first of which is later than the timestamp.
  loop_later :
      (fuel : ℕ) (e : Entry) (block post : List Entry)
      → AreWords (e ∷ block)
      → AreWords post
      → AreOf key (e ∷ block)
      → AreAfter key post
      → is_intent_key e.0 ≡ false
      → at_most e.0.timestamp ts ≡ false
      → is_sought e.0 (record { key = key; timestamp = ts }) ≡ false
      → Split key ts block
      → (it : MvccIterator) × (scan_loop serde
            (suc (suc fuel))
            (S serde txn key ts (at e (raws block ++ raws post)) [] [])
          ≡ done (S serde txn key ts it [] (visible ts block)))
  loop_later fuel e block post w v k a n h m (inl (empty, misses)) =
      (ended, rw empty (loop_none serde txn key ts fuel e block post w v k a n h (m, misses)))
  loop_later fuel e block post w v k a n h m (inr (newer, o, rest, cut, seen, misses, hit)) =
      let words = subst AreWords cut w.1 in
      let keys = subst (AreOf key) cut k.1 in
      let parts : raws block ++ raws post ≡ raws newer ++ (raw o ∷ (raws rest ++ raws post)) =
        ap (λ b. raws b ++ raws post) cut
        ∙ ap (λ r. r ++ raws post) (raws-append newer (o ∷ rest))
        ∙ append_assoc (raws newer) (raws (o ∷ rest)) (raws post) in
      (
        after post,
        ap (λ r. scan_loop serde (suc (suc fuel)) (S serde txn key ts (at e r) [] [])) parts
            ∙ loop_older serde txn key ts fuel e newer o rest post
                (w.0, All-left _ newer (o ∷ rest) words) (All-right _ newer (o ∷ rest) words) v k.0
                (All-right _ newer (o ∷ rest) keys) a n h (m, misses) hit
            ∙ ap (λ r. done (S serde txn key ts (after post) [] r)) (sym seen),
      )

  -- Without an intent of the key, the scan returns, notes no intent, and its result is the first
  -- listed version of the key at or before the timestamp, or nothing where there is none.
  pub scan-latest :
      (pre : List Entry) (e : Entry) (block post : List Entry)
      → IsListing key pre e block post
      → is_intent_key e.0 ≡ false
      → Finds serde txn key ts (listing pre e block post) (visible ts (e ∷ block)) []
  scan-latest pre e block post l n = elim (Bool-cases (at_most e.0.timestamp ts)) [
    | inl old ↦ (
      S serde txn key ts (after post) [] (e ∷ []),
      starts pre e block post l
          ∙ loop_here serde txn key ts _ e block post l.words l.words_after l.of_key l.after_key n
              old,
      rw old,
      refl,
    )
    | inr young ↦
        let (it, ended) =
          loop_later _ e block post l.words l.words_after l.of_key l.after_key n young
            (missed key ts e l.of_key.0 young) (split key ts block l.of_key.1) in
        (
          S serde txn key ts it [] (visible ts block),
          starts pre e block post l ∙ ended,
          rw young,
          refl,
        )
  ]

  -- With an intent of the key, the scan returns, its one intent is that one, and it has no result,
  -- whatever versions the key has.
  pub scan-intent :
      (pre : List Entry) (e : Entry) (block post : List Entry) (u : UncommittedValue)
      → IsListing key pre e block post
      → is_intent_key e.0 ≡ true
      → serde.from_slice e.1 ≡ some u
      → Finds serde txn key ts
          (listing pre e block post)
          []
          ((record { txn_meta = u.txn_metadata; key = e.0.key }, u.value) ∷ [])
  scan-intent pre e block post u l n d = (
    _,
    starts pre e block post l
        ∙ loop_intent serde txn key ts _ e block post l.words l.words_after l.of_key l.after_key u n
            d,
    refl,
    refl,
  )
