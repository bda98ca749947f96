-- ===== src/Latch/Node/Internal/Merge.antt =====
-- What the merges and the split of internal nodes of src/latch_manager/latch_interval_btree.rs keep.
use little_key_value_db.Prelude.{
  suc, ◌≤◌, ◌-◌, ◌/◌, ◌≡◌, refl, sym, ap, ◌∙◌, false, List, [], ◌∷◌, ◌++◌, Option, some, done,
  length, length-append, length-drop, length-take, take, drop, take-append-drop, ltb, arith,
}
use little_key_value_db.Storage.Bytes.{Key}
use little_key_value_db.Latch.Node.{
  LatchNode, InternalNode, Family, IsBranch, keys_across, edges_across,
}
use little_key_value_db.Latch.Node.Vectors.{vec_remove-middle, vec_remove-second, vec_remove-first}
use little_key_value_db.Latch.Node.Internal.{merge_with_left, merge_with_right, split}

-- The parent has the key between the edges of the two siblings.
abbrev pub IsParent : InternalNode → List Key → Key → List Key → LatchNode → LatchNode → Type 0
IsParent parent before k after l r =
    (edges_before : List (Option LatchNode)) × (edges_after : List (Option LatchNode)) × (length
        edges_before
      ≡ length before)
    × (parent.keys ≡ before ++ (k ∷ after))
    × (parent.edges ≡ edges_before ++ (some l ∷ some r ∷ edges_after))

-- The parent lost a key and the edge on the right of it.
abbrev pub HasMerged :
    InternalNode → InternalNode → List Key → List Key → LatchNode → LatchNode → Type 0
HasMerged parent parent' before after l r =
    (edges_before : List (Option LatchNode)) × (edges_after : List (Option LatchNode))
    × (parent.edges ≡ edges_before ++ (some l ∷ some r ∷ edges_after))
    × (parent'.edges ≡ edges_before ++ (some l ∷ edges_after))
    × (parent'.keys ≡ before ++ after)

IsBranch-across :
    (l r : InternalNode) (k : Key)
    → IsBranch l
    → IsBranch r
    → length (edges_across l r) ≡ suc (length (keys_across l k r))
IsBranch-across l r k hl hr =
    omega (arith, length-append l.edges r.edges, length-append l.keys (k ∷ r.keys), hl, hr)

-- A merge with the left sibling moves the keys and the edges of the node behind those of the sibling,
-- with the parent's key between them, and removes that key and the right one of the two edges from the
-- parent. The node that takes them then has one more edge than keys. Both siblings have one more edge
-- than keys, and the parent has the key between their edges.
pub merge_with_left_lem :
    (f : Family InternalNode) (before after : List Key) (k : Key) (l r : LatchNode)
    → IsBranch f.current
    → IsBranch f.sibling
    → IsParent f.parent before k after l r
    → (f' : Family InternalNode) × (merge_with_left (suc (length before)) f ≡ done f')
      × (f'.sibling.keys ≡ keys_across f.sibling k f.current)
      × (f'.sibling.edges ≡ edges_across f.sibling f.current)
      × HasMerged f.parent f'.parent before after l r
      × IsBranch f'.sibling
unfolding merge_with_left
merge_with_left_lem f before after k l r current sibling
      (edges_before, edges_after, len, keys, edges) =
    (
      record {
        sibling = record f.sibling {
          keys = keys_across f.sibling k f.current;
          edges = edges_across f.sibling f.current;
        };
        current = record f.current { keys = []; edges = [] };
        parent = record f.parent {
          keys = before ++ after;
          edges = edges_before ++ (some l ∷ edges_after);
        };
      },
      rw
          (
            keys,
            edges,
            vec_remove-middle before after k,
            vec_remove-second (length before) edges_before edges_after (some l) (some r) len,
          )
          refl,
      refl,
      refl,
      (edges_before, edges_after, edges, refl, refl),
      IsBranch-across f.sibling f.current k sibling current,
    )

-- A merge with the right sibling moves the keys and the edges of the sibling behind those of the node,
-- with the parent's key between them, and removes that key and the right one of the two edges from the
-- parent. The node that takes them then has one more edge than keys. Both siblings have one more edge
-- than keys, and the parent has the key between their edges.
pub merge_with_right_lem :
    (f : Family InternalNode) (before after : List Key) (k : Key) (l r : LatchNode)
    → IsBranch f.current
    → IsBranch f.sibling
    → IsParent f.parent before k after l r
    → (f' : Family InternalNode) × (merge_with_right (length before) f ≡ done f')
      × (f'.current.keys ≡ keys_across f.current k f.sibling)
      × (f'.current.edges ≡ edges_across f.current f.sibling)
      × HasMerged f.parent f'.parent before after l r
      × IsBranch f'.current
unfolding merge_with_right
merge_with_right_lem f before after k l r current sibling
      (edges_before, edges_after, len, keys, edges) =
    (
      record {
        current = record f.current {
          keys = keys_across f.current k f.sibling;
          edges = edges_across f.current f.sibling;
        };
        sibling = record f.sibling { keys = []; edges = [] };
        parent = record f.parent {
          keys = before ++ after;
          edges = edges_before ++ (some l ∷ edges_after);
        };
      },
      rw
          (
            keys,
            edges,
            vec_remove-middle before after k,
            vec_remove-second (length before) edges_before edges_after (some l) (some r) len,
          )
          refl,
      refl,
      refl,
      (edges_before, edges_after, edges, refl, refl),
      IsBranch-across f.current f.sibling k current sibling,
    )

-- A split of a node with a key and one more edge than keys does not panic: the keys of the node are
-- those of the left half, the median and those of the right half, the edges are those of the halves in
-- their order, both halves have one more edge than keys, and the left half has as many keys as the right
-- one or one more.
pub split-IsBranch :
    (n : InternalNode) (k : Key) (ks : List Key)
    → n.keys ≡ k ∷ ks
    → IsBranch n
    → (l : InternalNode) × (r : InternalNode) × (median : Key) × (split n ≡ done (l, r, median))
      × (keys_across l median r ≡ n.keys)
      × (edges_across l r ≡ n.edges)
      × IsBranch l
      × IsBranch r
      × (length r.keys ≤ length l.keys)
      × (length l.keys ≤ suc (length r.keys))
unfolding split
split-IsBranch n k ks keys branch =
    let mid = length n.keys / 2 in
    let size : length n.keys ≡ suc (length ks) = ap length keys in
    let right_len = length-drop mid n.keys in
    let (median, rest, drop_eq, run) =
      vec_remove-first (length n.keys - suc mid) (drop mid n.keys)
        (omega (arith, right_len, size)) in
    let rest_len : length (drop mid n.keys) ≡ suc (length rest) = ap length drop_eq in
    let left_len = length-take mid n.keys (omega arith) in
    let no_panic : ltb (length n.edges) (suc mid) ≡ false = ground (arith, branch) in
    (
      record n { keys = take mid n.keys; edges = take (suc mid) n.edges },
      record { keys = rest; edges = drop (suc mid) n.edges; order = n.order },
      median,
      rw (no_panic, run) refl,
      ap (λ l. take mid n.keys ++ l) (sym drop_eq) ∙ take-append-drop mid n.keys,
      take-append-drop (suc mid) n.edges,
      omega (arith, left_len, length-take (suc mid) n.edges (omega (arith, branch))),
      omega (arith, length-drop (suc mid) n.edges, branch, rest_len, right_len),
      omega (arith, left_len, rest_len, right_len),
      omega (arith, left_len, rest_len, right_len),
    )
