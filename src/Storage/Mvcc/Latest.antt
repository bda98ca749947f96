-- ===== src/Storage/Mvcc/Latest.antt =====
-- A read by `mvcc_get` of src/storage/mvcc.rs gives the latest version that it may see.
use little_key_value_db.Prelude.{
  ◌≡◌, ◌⊎◌, refl, inl, inr, lt, arith, true, false, List, [], ◌∷◌, Option, none, some, done, All,
  Bool-cases,
}
use little_key_value_db.Hlc.Timestamp.{Timestamp, cmp}
use little_key_value_db.Hlc.Timestamp.Order.{cmp_refl}
use little_key_value_db.Storage.Bytes.{Key}
use little_key_value_db.Storage.Key.{is_intent_key}
use little_key_value_db.Storage.Txn.{Txn, UncommittedValue}
use little_key_value_db.Storage.Store.{Engine, Serde, mvcc}
use little_key_value_db.Storage.Iterator.{at_most}
use little_key_value_db.Storage.Iterator.Seek.{Entry, raws}
use little_key_value_db.Storage.Scanner.Get.{visible}
use little_key_value_db.Storage.Scanner.Latest.{IsListing, listing}
use little_key_value_db.Storage.Mvcc.{mvcc_get, first}
use little_key_value_db.Storage.Mvcc.Read.{mvcc_get-latest}

-- Each entry is later than those after it.
abbrev pub AreDescending : List Entry → Type 0
AreDescending [] = Unit
AreDescending (e ∷ es) = All (λ d. cmp d.0.timestamp e.0.timestamp ≡ lt) es × AreDescending es

abbrev pub IsAmong : Entry → List Entry → Type 0
IsAmong o [] = ⊥
IsAmong o (e ∷ es) = (o ≡ e) ⊎ IsAmong o es

-- The entry is one of those at or before the timestamp, and none of those is later; or there is no
-- entry at or before the timestamp.
abbrev pub IsLatest : Timestamp → List Entry → Option Entry → Type 0
IsLatest ts es none = All (λ e. at_most e.0.timestamp ts ≡ false) es
IsLatest ts es (some o) =
    (at_most o.0.timestamp ts ≡ true)
    × IsAmong o es
    × All (λ e. (at_most e.0.timestamp ts ≡ false) ⊎ (at_most e.0.timestamp o.0.timestamp ≡ true))
        es

at_most_of_lt : (t u : Timestamp) → cmp t u ≡ lt → at_most t u ≡ true
unfolding at_most
at_most_of_lt t u h = ground arith

older :
    (ts : Timestamp) (o : Entry) (es : List Entry)
    → All (λ d. cmp d.0.timestamp o.0.timestamp ≡ lt) es
    → All
        (λ e. (at_most e.0.timestamp ts ≡ false) ⊎ (at_most e.0.timestamp o.0.timestamp ≡ true))
        es
older ts o [] a = tt
older ts o (e ∷ es) a = (inr (at_most_of_lt _ _ a.0), older ts o es a.1)

skip :
    (ts : Timestamp) (e : Entry) (es : List Entry) (r : Option Entry)
    → at_most e.0.timestamp ts ≡ false
    → IsLatest ts es r
    → IsLatest ts (e ∷ es) r
skip ts e es none n l = (n, l)
skip ts e es (some o) n l = (l.0, inr l.1, (inl n, l.2))

visible-IsLatest :
    (ts : Timestamp) (es : List Entry) → AreDescending es → IsLatest ts es (first (visible ts es))
unfolding at_most
visible-IsLatest ts [] d = tt
visible-IsLatest ts (e ∷ es) d = elim (Bool-cases (at_most e.0.timestamp ts)) [
  | inl seen ↦
      rw seen (seen, inl refl, (inr (rw (cmp_refl e.0.timestamp, at_most)), older ts e es d.0))
  | inr young ↦ rw young (skip ts e es _ young (visible-IsLatest ts es d.1))
]

module _ (e : Engine) (values : Serde UncommittedValue) where
  open e use {Db, iterator_cf}

  -- A read of a key that has versions and no intent returns, reports no intent, and gives the latest
  -- version of the key at or before the timestamp, or nothing where all versions are later. The store
  -- lists entries of earlier keys, then those of the key from the latest to the earliest, of which `v`
  -- is the first, then those of later keys, with times that fit their words.
  pub mvcc_get-IsLatest :
      (key : Key) (ts : Timestamp) (txn : Option Txn) (db : Db) (pre : List Entry) (v : Entry)
      (block post : List Entry)
      → iterator_cf mvcc db ≡ raws (listing pre v block post)
      → IsListing key pre v block post
      → AreDescending (v ∷ block)
      → is_intent_key v.0 ≡ false
      → (r : Option Entry) × (mvcc_get e values key ts txn db
          ≡ done (record { value = r; intent = none }))
        × IsLatest ts (v ∷ block) r
  mvcc_get-IsLatest key ts txn db pre v block post l s d n = (
    first (visible ts (v ∷ block)),
    mvcc_get-latest e values key ts txn db pre v block post l s n,
    visible-IsLatest ts (v ∷ block) d,
  )
