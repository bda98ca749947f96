-- ===== src/Latch/Node/Leaf/Split.antt =====
-- What the split of a leaf of src/latch_manager/latch_interval_btree.rs keeps.
use little_key_value_db.Prelude.{
  suc, ◌≤◌, ◌-◌, ◌/◌, ◌≡◌, refl, ap, false, List, [], ◌∷◌, ◌++◌, some, done, length, length-drop,
  length-take, take, drop, take-append-drop, vec_at, ltb, arith,
}
use little_key_value_db.Storage.Bytes.{Key}
use little_key_value_db.Latch.Node.{LatchNode, LeafNode}
use little_key_value_db.Latch.Node.Vectors.{vec_remove-first}
use little_key_value_db.Latch.Node.Leaf.{split}

-- There are as many end keys as start keys.
abbrev pub IsPaired : LeafNode → Type 0
IsPaired n = length n.end_keys ≡ length n.start_keys

-- The links from a leaf to the new one on its right and back, which passes on the old link.
abbrev pub AreLinked : LatchNode → LatchNode → LeafNode → LeafNode → LeafNode → Type 0
AreLinked node right n l r =
    (l.right_ptr ≡ some right) × (r.left_ptr ≡ some node) × (r.right_ptr ≡ n.right_ptr)

-- A split of a leaf that has a key and as many end keys as start keys does not panic: its ranges are
-- those of the left half and then those of the right one, the key that is returned is the first of the
-- right half, both halves have as many end keys as start keys, the halves are linked to each other, and
-- the right one has as many keys as the left one or one more.
pub split-IsPaired :
    (node right : LatchNode) (n : LeafNode) (k : Key) (ks : List Key)
    → n.start_keys ≡ k ∷ ks
    → IsPaired n
    → (l : LeafNode) × (r : LeafNode) × (first : Key) × (rest : List Key) × (split node right n
        ≡ done (l, r, first))
      × (r.start_keys ≡ first ∷ rest)
      × (l.start_keys ++ r.start_keys ≡ n.start_keys)
      × (l.end_keys ++ r.end_keys ≡ n.end_keys)
      × IsPaired l
      × IsPaired r
      × AreLinked node right n l r
      × (length l.start_keys ≤ length r.start_keys)
      × (length r.start_keys ≤ suc (length l.start_keys))
unfolding split
split-IsPaired node right n k ks keys paired =
    let mid = length n.start_keys / 2 in
    let size : length n.start_keys ≡ suc (length ks) = ap length keys in
    let right_len = length-drop mid n.start_keys in
    let (first, rest, eq, run) =
      vec_remove-first (length n.start_keys - suc mid) (drop mid n.start_keys)
        (omega (arith, right_len, size)) in
    let left_len = length-take mid n.start_keys (omega arith) in
    let no_panic : ltb (length n.end_keys) mid ≡ false = ground (arith, paired) in
    let run : vec_at 0 (drop mid n.start_keys) ≡ done first = ap (vec_at 0) eq in
    (
      record n {
        start_keys = take mid n.start_keys;
        end_keys = take mid n.end_keys;
        right_ptr = some right;
      },
      record {
        start_keys = drop mid n.start_keys;
        end_keys = drop mid n.end_keys;
        left_ptr = some node;
        right_ptr = n.right_ptr;
        order = n.order;
        waiters = 0 ∷ [];
      },
      first,
      rest,
      rw (no_panic, run) refl,
      eq,
      take-append-drop mid n.start_keys,
      take-append-drop mid n.end_keys,
      omega (arith, left_len, length-take mid n.end_keys (omega (arith, paired))),
      omega (arith, length-drop mid n.end_keys, right_len, paired),
      (refl, refl, refl),
      omega (arith, left_len, right_len),
      omega (arith, left_len, right_len),
    )
