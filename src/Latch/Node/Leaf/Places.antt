-- ===== src/Latch/Node/Leaf/Places.antt =====
-- Where a key stands among the ascending keys of a leaf of src/latch_manager/latch_interval_btree.rs.
use little_key_value_db.Prelude.{
  ℕ, suc, ◌≤◌, ◌≡◌, ◌≢◌, refl, sym, ap, ◌∙◌, inl, inr, true, false, List, [], ◌∷◌, ◌++◌, none, some,
  length, take, drop, take-append-drop, length-take, All, All-append, All-left, All-right,
  Bool-cases, ordering_cases, lt, eq, gt, arith,
}
use little_key_value_db.Storage.Bytes.{Key, bytes_cmp, bytes_eq}
use little_key_value_db.Storage.Bytes.Order.{
  bytes_cmp_refl, eq_of_bytes_eq, bytes_eq_refl, eq_of_bytes_cmp, bytes_lt_trans, bytes_lt_of_gt,
}
use little_key_value_db.Latch.Node.{insert_index}
use little_key_value_db.Latch.Node.Leaf.{find_key_idx}

abbrev pub IsAscending : List Key → Type 0
IsAscending [] = Unit
IsAscending (k ∷ ks) = All (λ l. bytes_cmp k l ≡ lt) ks × IsAscending ks

abbrev pub IsBelow : Key → List Key → Type 0
IsBelow key = All (λ k. bytes_cmp k key ≡ lt)

abbrev pub IsAbove : Key → List Key → Type 0
IsAbove key = All (λ k. bytes_cmp key k ≡ lt)

find_key_idx-absent :
    (key k : Key) (ks : List Key)
    → find_key_idx key (k ∷ ks) ≡ none
    → (bytes_eq k key ≡ false) × (find_key_idx key ks ≡ none)
unfolding find_key_idx
find_key_idx-absent key k ks h = (ground arith, ground arith)

All-map : {P Q : Key → Type 0} → ((k : Key) → P k → Q k) → (ks : List Key) → All P ks → All Q ks
All-map f [] h = tt
All-map f (k ∷ ks) (h, hs) = (f k h, All-map f ks hs)

insert_index-nil : (key : Key) → insert_index key [] ≡ 0
unfolding insert_index
insert_index-nil key = refl

insert_index-here :
    (key k : Key) (ks : List Key) → bytes_cmp key k ≡ lt → insert_index key (k ∷ ks) ≡ 0
unfolding insert_index
insert_index-here key k ks less = ground arith

insert_index-later :
    (key k : Key) (ks : List Key)
    → bytes_cmp key k ≡ gt
    → insert_index key (k ∷ ks) ≡ suc (insert_index key ks)
unfolding insert_index
insert_index-later key k ks greater = ground arith

differs_self : (key k : Key) → bytes_eq k key ≡ false → bytes_cmp key k ≢ eq
differs_self key k differs same =
    let equal : bytes_eq k key ≡ true = rw (eq_of_bytes_cmp key k same) (bytes_eq_refl k) in
    ground arith

-- Where the key of an ascending list is not in it, its index splits the list.
pub insert_index-splits :
    (key : Key) (keys : List Key)
    → IsAscending keys
    → find_key_idx key keys ≡ none
    → (before : List Key) × (after : List Key) × (keys ≡ before ++ after)
      × (insert_index key keys ≡ length before)
      × IsBelow key before
      × IsAbove key after
insert_index-splits key [] asc absent = ([], [], refl, insert_index-nil key, tt, tt)
insert_index-splits key (k ∷ ks) (above, asc) absent =
    let (differs, rest) = find_key_idx-absent key k ks absent in
    elim (ordering_cases (bytes_cmp key k)) [
      | inl less ↦ (
        [],
        k ∷ ks,
        refl,
        insert_index-here key k ks less,
        tt,
        (less, All-map (λ l. bytes_lt_trans key k l less) ks above),
      )
      | inr (inl same) ↦ absurd (differs_self key k differs same)
      | inr (inr greater) ↦
          let (before, after, split, idx, below, above) = insert_index-splits key ks asc rest in
          (
            k ∷ before,
            after,
            ap (λ l. k ∷ l) split,
            insert_index-later key k ks greater ∙ ap suc idx,
            (bytes_lt_of_gt key k greater, below),
            above,
          )
    ]

pub insert-IsAscending :
    (key : Key) (before after : List Key)
    → IsAscending (before ++ after)
    → IsBelow key before
    → IsAbove key after
    → IsAscending (before ++ (key ∷ after))
insert-IsAscending key [] after asc below above = (above, asc)
insert-IsAscending key (k ∷ before) after (over, asc) (less, below) above = (
  All-append (λ l. bytes_cmp k l ≡ lt) before (key ∷ after)
      (All-left (λ l. bytes_cmp k l ≡ lt) before after over)
      (less, All-right (λ l. bytes_cmp k l ≡ lt) before after over),
  insert-IsAscending key before after asc below above,
)

less_differs : (k key : Key) → bytes_cmp k key ≡ lt → bytes_eq k key ≡ false
less_differs k key less = elim (Bool-cases (bytes_eq k key)) [
  | inr differs ↦ differs
  | inl same ↦
      let equal : bytes_cmp k key ≡ eq = rw (eq_of_bytes_eq k key same) (bytes_cmp_refl key) in
      ground arith
]

pub find_key_idx-middle :
    (key : Key) (before after : List Key)
    → IsBelow key before
    → find_key_idx key (before ++ (key ∷ after)) ≡ some (length before)
unfolding find_key_idx
find_key_idx-middle key [] after below = rw (bytes_eq_refl key) refl
find_key_idx-middle key (k ∷ before) after (less, below) =
    rw (less_differs k key less, find_key_idx-middle key before after below) refl

pub split_at :
    {A : Type 0} (n : ℕ) (ys : List A)
    → n ≤ length ys
    → (before : List A) × (after : List A) × (ys ≡ before ++ after) × (length before ≡ n)
split_at n ys h = (take n ys, drop n ys, sym (take-append-drop n ys), length-take n ys h)
