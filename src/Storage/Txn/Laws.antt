-- ===== src/Storage/Txn/Laws.antt =====
-- What the methods of a transaction of src/storage/txn.rs promise.
use little_key_value_db.Prelude.{◌≡◌, true, false, List, [], ◌∷◌, ◌++◌, arith}
use little_key_value_db.Storage.Bytes.{Key, bytes_eq}
use little_key_value_db.Storage.Bytes.Order.{bytes_eq_refl}
use little_key_value_db.Storage.Txn.{contains}

-- No key stands twice.
abbrev pub IsDistinct : List Key → Type 0
IsDistinct [] = Unit
IsDistinct (k ∷ ks) = (contains ks k ≡ false) × IsDistinct ks

contains-snoc :
    (ks : List Key) (a b : Key)
    → contains ks b ≡ false
    → bytes_eq a b ≡ false
    → contains (ks ++ (a ∷ [])) b ≡ false
unfolding contains
contains-snoc [] a b h n = ground arith
contains-snoc (k ∷ ks) a b h n = ground (arith, contains-snoc ks a b)

pub contains-snoc_self : (ks : List Key) (a : Key) → contains (ks ++ (a ∷ [])) a ≡ true
unfolding contains
contains-snoc_self [] a = rw (bytes_eq_refl a)
contains-snoc_self (k ∷ ks) a = ground (arith, contains-snoc_self ks a)
