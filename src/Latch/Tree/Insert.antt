-- ===== src/Latch/Tree/Insert.antt =====
-- The insertion of src/latch_manager/latch_interval_btree.rs.
use little_key_value_db.Prelude.{
  ℕ, zero, suc, ◌-◌, List, [], ◌∷◌, Option, none, some, Outcome, done, unfinished, ◌>>=◌, unwrap,
  if◌then◌else◌, ltb, vec_at,
}
use little_key_value_db.Storage.Bytes.{Key}
use little_key_value_db.LockTable.Guard.{Range}
use little_key_value_db.Latch.Node.{
  LatchNode, internal, leaf, LeafNode, size, has_room, insert_index,
}
use little_key_value_db.Latch.Node.Internal
use little_key_value_db.Latch.Node.Internal.{insert_node}
use little_key_value_db.Latch.Node.Leaf
use little_key_value_db.Latch.Node.Leaf.{LatchKeyGuard, acquired, not_acquired, insert_range}
use little_key_value_db.Latch.Tree.{BTree, store, allocate, node_at, internal_at, edge}

-- The edge to follow: that of the first greater key, or the last one. There is none without keys.
unfoldable pub child_index : Key → List Key → Option ℕ
child_index key [] = none
child_index key (k ∷ ks) = some (insert_index key (k ∷ ks))

-- The end of a split: the parent takes the new node, or a new root takes both.
unfoldable pub link_split : Option LatchNode → LatchNode → LatchNode → Key → BTree → Outcome BTree
unfolding insert_node
link_split none node split_node median t =
    let grown =
      allocate
        (internal (record {
          keys = median ∷ [];
          edges = some node ∷ some split_node ∷ [];
          order = t.order;
        }))
        t in
    done (record (grown.0) { root = some grown.1 })
link_split (some parent) node split_node median t = do
  parent_node ← internal_at parent t
  inserted ← insert_node split_node median parent_node
  done (store parent (internal inserted) t)

unfoldable pub split_internal : Option LatchNode → LatchNode → BTree → Outcome BTree
unfolding link_split
split_internal parent node t = do
  n ← internal_at node t
  if has_room n.keys n.order then done t else (do
    halves ← Internal.split n
    let grown = allocate (internal halves.1) (store node (internal halves.0) t)
    link_split parent node grown.1 halves.2 (grown.0))

unfoldable pub insert_leaf :
    Option LatchNode → LatchNode → LeafNode → Range → BTree → Outcome (BTree × LatchKeyGuard)
unfolding link_split
insert_leaf parent node leaf_node range t = do
  inserted ← insert_range range leaf_node
  elim inserted.1 [
    | not_acquired ↦ done (store node (leaf inserted.0) t, not_acquired)
    | acquired ↦
        if has_room (inserted.0).start_keys (inserted.0).order
        then done (store node (leaf inserted.0) t, acquired)
        else (do
          halves ← Leaf.split node t.next inserted.0
          let grown = allocate (leaf halves.1) (store node (leaf halves.0) t)
          linked ← link_split parent node grown.1 halves.2 (grown.0)
          done (linked, acquired))
  ]

unfoldable pub insert_helper :
    ℕ → Option LatchNode → LatchNode → Range → BTree → Outcome (BTree × LatchKeyGuard)
unfolding child_index split_internal insert_leaf
insert_helper zero parent_node node range t = unfinished
insert_helper (suc fuel) parent_node node range t = do
  n ← node_at node t
  elim n [
    | leaf leaf_node ↦ insert_leaf parent_node node leaf_node range t
    | internal internal_node ↦ do
      idx ← unwrap (child_index range.start_key internal_node.keys)
      link ← vec_at idx internal_node.edges
      next_node ← edge link
      child ← node_at next_node t
      if ltb (size child) (t.order - 1) then insert_helper fuel none next_node range t else (do
        res ← insert_helper fuel (some node) next_node range t
        elim res.1 [
          | acquired ↦ do split ← split_internal parent_node node res.0; done (split, acquired)
          | not_acquired ↦ done res
        ])
  ]

-- The recursion goes down the tree, which has no more levels than nodes.
unfoldable pub insert : Range → BTree → Outcome (BTree × LatchKeyGuard)
unfolding insert_helper
insert range t = do node ← unwrap t.root; insert_helper (suc t.next) none node range t
