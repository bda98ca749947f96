-- ===== src/Execute/Executor/Refresh.antt =====
-- When `refresh_read_timestamp` of src/execute/executor.rs succeeds.
use little_key_value_db.Prelude.{
  ◌≡◌, refl, ap, ◌∙◌, Bool, true, false, not, List, [], ◌∷◌, none, some, Outcome, done, ◌>>=◌,
  arith, Bool-cases, inl, inr,
}
use little_key_value_db.Storage.Bytes.{Key}
use little_key_value_db.Storage.Key.{is_intent_key}
use little_key_value_db.Storage.Txn.{Txn, UncommittedValue}
use little_key_value_db.Storage.Store.{Engine, Serde, mvcc}
use little_key_value_db.Storage.Iterator.Seek.{Entry, raws}
use little_key_value_db.Storage.Scanner.Get.{visible}
use little_key_value_db.Storage.Scanner.Latest.{IsListing, listing}
use little_key_value_db.Storage.Mvcc.{MvccGetResult, mvcc_get, first}
use little_key_value_db.Storage.Mvcc.Read.{mvcc_get-latest}
use little_key_value_db.LockTable.State.{is_before}
use little_key_value_db.Execute.Executor.{may_refresh, refresh_keys, refresh_read_timestamp}

module _ (e : Engine) (values : Serde UncommittedValue) where
  open e use {Db, iterator_cf}

  refresh_keys-one :
      (t : Txn) (key : Key) (db : Db) (res : MvccGetResult)
      → mvcc_get e values key t.write_timestamp (some t) db ≡ done res
      → refresh_keys e values (key ∷ []) t db ≡ done (may_refresh t res)
  unfolding refresh_keys
  refresh_keys-one t key db res r = elim (Bool-cases (may_refresh t res)) [
    | inl ok ↦ rw (r, ◌>>=◌, ok)
    | inr bad ↦ rw (r, ◌>>=◌, bad)
  ]

  may_refresh-visible :
      (t : Txn) (es : List Entry)
      → may_refresh t (record { value = first es; intent = none }) ≡ (elim (first es) [
        | none ↦ true
        | some o ↦ not (is_before o.0.timestamp t.read_timestamp)
      ])
  unfolding may_refresh
  may_refresh-visible t [] = refl
  may_refresh-visible t (o ∷ es) = ground arith

  -- The refresh of a transaction that has read one key, which has versions and no intent: it fails
  -- exactly if the first listed version at or before the write timestamp is before the read timestamp,
  -- and it leaves the transaction as it is. The store lists entries of earlier keys, then those of the
  -- key, of which `v` is the first, then those of later keys, with times that fit their words.
  pub refresh_read_timestamp_one :
      (t : Txn) (key : Key) (db : Db) (pre : List Entry) (v : Entry) (block post : List Entry)
      → t.read_set ≡ key ∷ []
      → iterator_cf mvcc db ≡ raws (listing pre v block post)
      → IsListing key pre v block post
      → is_intent_key v.0 ≡ false
      → refresh_read_timestamp e values t db
        ≡ done (
          t,
          elim (first (visible t.write_timestamp (v ∷ block))) [
            | none ↦ true
            | some o ↦ not (is_before o.0.timestamp t.read_timestamp)
          ],
        )
  unfolding refresh_read_timestamp
  refresh_read_timestamp_one t key db pre v block post r l s n =
      let read =
        mvcc_get-latest e values key t.write_timestamp (some t) db pre v block post l s n in
      ap (λ keys. refresh_keys e values keys t db >>= ends) r
      ∙ ap (λ o. o >>= ends) (refresh_keys-one t key db _ read)
      ∙ ends_lem (
          may_refresh t
            (record { value = first (visible t.write_timestamp (v ∷ block)); intent = none }))
      ∙ ap (λ b. done (t, b)) (may_refresh-visible t (visible t.write_timestamp (v ∷ block)))
    where
      ends : Bool → Outcome (Txn × Bool)
      ends b = elim b [ true ↦ done (t, true) | false ↦ done (t, false) ]

      ends_lem : (b : Bool) → ends b ≡ done (t, b)
      ends_lem true = refl
      ends_lem false = refl
