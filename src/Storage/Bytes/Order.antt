-- ===== src/Storage/Bytes/Order.antt =====
-- The order of byte vectors is a total order, and `==` decides equality.
use little_key_value_db.Prelude.{lt, eq, gt, ◌≡◌, refl, [], ◌∷◌, arith, true}
use little_key_value_db.Storage.Bytes.{Bytes, bytes_eq, bytes_cmp}

pub bytes_cmp_refl : (a : Bytes) → bytes_cmp a a ≡ eq
unfolding bytes_cmp
bytes_cmp_refl [] = refl
bytes_cmp_refl (x ∷ a) = ground (arith, bytes_cmp_refl a)

pub eq_of_bytes_cmp : (a b : Bytes) → bytes_cmp a b ≡ eq → a ≡ b
unfolding bytes_cmp
eq_of_bytes_cmp [] [] h = refl
eq_of_bytes_cmp [] (y ∷ b) h = ground arith
eq_of_bytes_cmp (x ∷ a) [] h = ground arith
eq_of_bytes_cmp (x ∷ a) (y ∷ b) h = ground (arith, eq_of_bytes_cmp a b)

pub bytes_gt_of_lt : (a b : Bytes) → bytes_cmp a b ≡ lt → bytes_cmp b a ≡ gt
unfolding bytes_cmp
bytes_gt_of_lt [] [] h = ground arith
bytes_gt_of_lt [] (y ∷ b) h = refl
bytes_gt_of_lt (x ∷ a) [] h = ground arith
bytes_gt_of_lt (x ∷ a) (y ∷ b) h = ground (arith, bytes_gt_of_lt a b)

pub bytes_lt_of_gt : (a b : Bytes) → bytes_cmp a b ≡ gt → bytes_cmp b a ≡ lt
unfolding bytes_cmp
bytes_lt_of_gt [] [] h = ground arith
bytes_lt_of_gt [] (y ∷ b) h = ground arith
bytes_lt_of_gt (x ∷ a) [] h = refl
bytes_lt_of_gt (x ∷ a) (y ∷ b) h = ground (arith, bytes_lt_of_gt a b)

pub bytes_lt_trans : (a b c : Bytes) → bytes_cmp a b ≡ lt → bytes_cmp b c ≡ lt → bytes_cmp a c ≡ lt
unfolding bytes_cmp
bytes_lt_trans [] [] c h k = k
bytes_lt_trans [] (y ∷ b) [] h k = ground arith
bytes_lt_trans [] (y ∷ b) (z ∷ c) h k = refl
bytes_lt_trans (x ∷ a) [] c h k = ground arith
bytes_lt_trans (x ∷ a) (y ∷ b) [] h k = ground arith
bytes_lt_trans (x ∷ a) (y ∷ b) (z ∷ c) h k = ground (arith, bytes_lt_trans a b c)

pub eq_of_bytes_eq : (a b : Bytes) → bytes_eq a b ≡ true → a ≡ b
unfolding bytes_eq
eq_of_bytes_eq [] [] h = refl
eq_of_bytes_eq [] (y ∷ b) h = ground arith
eq_of_bytes_eq (x ∷ a) [] h = ground arith
eq_of_bytes_eq (x ∷ a) (y ∷ b) h = ground (arith, eq_of_bytes_eq a b)

pub bytes_eq_refl : (a : Bytes) → bytes_eq a a ≡ true
unfolding bytes_eq
bytes_eq_refl [] = refl
bytes_eq_refl (x ∷ a) = ground (arith, bytes_eq_refl a)
