-- ===== src/Storage/Scanner/Absent.antt =====
-- A scan of one key by src/storage/mvcc_scanner.rs, where the store holds no entry of the key and
-- none of a later key.
use little_key_value_db.Prelude.{
  lt, ◌≡◌, refl, ◌∙◌, true, false, List, [], ◌∷◌, Option, done, ◌>>=◌,
}
use little_key_value_db.Hlc.Timestamp.{Timestamp}
use little_key_value_db.Storage.Bytes.{Key, bytes_cmp}
use little_key_value_db.Storage.Key.{is_intent_key, create_intent_key}
use little_key_value_db.Storage.Txn.{Txn, UncommittedValue}
use little_key_value_db.Storage.Store.{Serde}
use little_key_value_db.Storage.Iterator.{new, at_most}
use little_key_value_db.Storage.Iterator.Seek.{
  Entry, AreWords, at, last_or, last_or-IsWord, seek_ge-Misses, current_key-at,
}
use little_key_value_db.Storage.Scanner.{scan, is_past_end, advance_to_next_key, advance_loop}
use little_key_value_db.Storage.Scanner.Get.{round_within, gets_here, ended}
use little_key_value_db.Storage.Scanner.Found.{AreBefore, Finds, S, full, before-Misses}

last_or-before :
    (key : Key) (c : Entry) (cs : List Entry)
    → AreBefore key (c ∷ cs)
    → bytes_cmp (last_or c cs).0.key key ≡ lt
last_or-before key c [] b = b.0
last_or-before key c (d ∷ cs) b = last_or-before key d cs b.1

module _ (serde : Serde UncommittedValue) (txn : Option Txn) (key : Key) (ts : Timestamp) where
  ends_advance :
      (l : Entry) (results : List Entry)
      → AreWords (l ∷ [])
      → advance_to_next_key (S serde txn key ts (at l []) [] results)
        ≡ done (S serde txn key ts ended [] results)
  unfolding advance_to_next_key advance_loop
  ends_advance l results w = rw (current_key-at l [] w.0)

  -- If every entry of the store is of an earlier key, and the last one is a version at or before the
  -- timestamp, the scan of `key` takes that one.
  pub scan-absent :
      (c : Entry) (cs : List Entry)
      → AreWords (c ∷ cs)
      → AreBefore key (c ∷ cs)
      → is_intent_key (last_or c cs).0 ≡ false
      → at_most (last_or c cs).0.timestamp ts ≡ true
      → Finds serde txn key ts (c ∷ cs) (last_or c cs ∷ []) []
  unfolding scan new is_past_end
  scan-absent c cs w b n h =
      let l = last_or c cs in
      let v = last_or-IsWord c cs w in
      (
        S serde txn key ts ended [] (l ∷ []),
        rw
            (
              seek_ge-Misses (create_intent_key key) c cs w
                  (before-Misses (create_intent_key key) (c ∷ cs) b),
              ◌>>=◌,
            )
            (round_within serde txn key ts _ l [] v (rw (last_or-before key c cs b, is_past_end))
              ∙ rw (gets_here serde txn key ts l [] v n h, ◌>>=◌, ends_advance l (l ∷ []) (v, tt))
                  (full serde txn key ts _ ended l)),
        refl,
        refl,
      )
