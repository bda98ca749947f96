-- ===== src/Storage/Store/Memory.antt =====
-- An engine in memory, which shows that what src/storage/storage.rs asks of RocksDB can be had: a
-- sorted list of pairs for each column family.
use little_key_value_db.Prelude.{lt, ◌≡◌, refl, List, [], ◌∷◌, none, some, if◌then◌else◌, arith}
use little_key_value_db.Storage.Bytes.{Bytes, bytes_eq}
use little_key_value_db.Storage.Bytes.Order.{bytes_eq_refl, eq_of_bytes_eq}
use little_key_value_db.Storage.Store.{Engine, ColumnFamily, mvcc, txn, same_family, compare, find}

abbrev pub Pairs : Type 0
Pairs = List (Bytes × Bytes)

unfoldable pub insert : Bytes → Bytes → Pairs → Pairs
insert k v [] = (k, v) ∷ []
insert k v ((j, w) ∷ rest) =
    if bytes_eq j k
    then (k, v) ∷ rest
    else elim (compare k j) [ lt ↦ (k, v) ∷ (j, w) ∷ rest | _ ↦ (j, w) ∷ insert k v rest ]

unfoldable pub remove : Bytes → Pairs → Pairs
remove k [] = []
remove k ((j, w) ∷ rest) = if bytes_eq j k then remove k rest else (j, w) ∷ remove k rest

pub record MemoryDb : Type 0 where
  pub versions : Pairs
  pub records : Pairs

abbrev pub family : ColumnFamily → MemoryDb → Pairs
family mvcc d = d.versions
family txn d = d.records

abbrev pub with_family : ColumnFamily → Pairs → MemoryDb → MemoryDb
with_family mvcc l d = record d { versions = l }
with_family txn l d = record d { records = l }

find-insert :
    (k j v : Bytes) (l : Pairs)
    → find j (insert k v l) ≡ (if bytes_eq k j then some v else find j l)
unfolding find insert
find-insert k j v [] = refl
find-insert k j v ((i, w) ∷ rest) = ground (
  arith,
  find-insert k j v rest,
  eq_of_bytes_eq i k,
  eq_of_bytes_eq i j,
  bytes_eq_refl j,
  eq_of_bytes_eq k j,
  bytes_eq_refl k,
)

find-remove :
    (k j : Bytes) (l : Pairs) → find j (remove k l) ≡ (if bytes_eq k j then none else find j l)
unfolding find remove
find-remove k j [] = ground arith
find-remove k j ((i, w) ∷ rest) = ground (
  arith,
  find-remove k j rest,
  eq_of_bytes_eq i k,
  eq_of_bytes_eq i j,
  bytes_eq_refl j,
  eq_of_bytes_eq k j,
  bytes_eq_refl k,
)

pub family-put :
    (f g : ColumnFamily) (k j v : Bytes) (d : MemoryDb)
    → find j (family g (with_family f (insert k v (family f d)) d)) ≡ (
        if same_family f g
        then (if bytes_eq k j then some v else find j (family g d))
        else find j (family g d))
family-put mvcc mvcc k j v d = find-insert k j v d.versions
family-put mvcc txn k j v d = refl
family-put txn mvcc k j v d = refl
family-put txn txn k j v d = find-insert k j v d.records

pub family-delete :
    (f g : ColumnFamily) (k j : Bytes) (d : MemoryDb)
    → find j (family g (with_family f (remove k (family f d)) d)) ≡ (
        if same_family f g
        then (if bytes_eq k j then none else find j (family g d))
        else find j (family g d))
family-delete mvcc mvcc k j d = find-remove k j d.versions
family-delete mvcc txn k j d = refl
family-delete txn mvcc k j d = refl
family-delete txn txn k j d = find-remove k j d.records

abbrev pub memory : Engine
memory = record {
  Db = MemoryDb;
  get_cf = λ f k d. find k (family f d);
  put_cf = λ f k v d. with_family f (insert k v (family f d)) d;
  delete_cf = λ f k d. with_family f (remove k (family f d)) d;
  iterator_cf = family;
  get-put = family-put;
  get-delete = family-delete;
}
