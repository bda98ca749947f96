-- ===== src/Latch/Tree/Delete.antt =====
-- The deletion of src/latch_manager/latch_interval_btree.rs.
use little_key_value_db.Prelude.{
  ℕ, zero, suc, Bool, true, false, not, ◌&&◌, List, [], ◌∷◌, Option, none, some, Outcome, done,
  panicked, unfinished, ◌>>=◌, unwrap, if◌then◌else◌, ◌==◌, vec_at,
}
use little_key_value_db.Storage.Bytes.{Key, bytes_eq, is_less}
use little_key_value_db.Latch.Node.{
  LatchNode, Direction, to_left, to_right, internal, leaf, InternalNode, LeafNode, Family,
  has_spare_key, is_short, find_child_left_sibling, find_child_right_sibling, update_key_at_index,
}
use little_key_value_db.Latch.Node.Internal
use little_key_value_db.Latch.Node.Internal.{steal_from_left_sibling, steal_from_right_sibling}
use little_key_value_db.Latch.Node.Leaf
use little_key_value_db.Latch.Node.Leaf.{
  find_next_larger_key, remove_key, get_smallest_key, key_index, steal_from_left_leaf_sibling,
  steal_from_right_leaf_sibling,
}
use little_key_value_db.Latch.Tree.{BTree, store, node_at, internal_at, leaf_at, edge}

-- An internal node with the sibling at a link and their parent. The node itself is locked.
unfoldable pub internal_family :
    LatchNode → LatchNode → LatchNode → BTree → Outcome (Family InternalNode)
internal_family parent node link t = if link == node then unfinished else (do
  current ← internal_at node t
  sibling ← internal_at link t
  parent_node ← internal_at parent t
  done (record { current = current; sibling = sibling; parent = parent_node }))

unfoldable pub leaf_family : LatchNode → LatchNode → LatchNode → BTree → Outcome (Family LeafNode)
leaf_family parent node link t = if link == node then unfinished else (do
  current ← leaf_at node t
  sibling ← leaf_at link t
  parent_node ← internal_at parent t
  done (record { current = current; sibling = sibling; parent = parent_node }))

abbrev pub store_internals : LatchNode → LatchNode → LatchNode → Family InternalNode → BTree → BTree
store_internals parent node link f t =
    store parent (internal f.parent)
      (store link (internal f.sibling) (store node (internal f.current) t))

abbrev pub store_leaves : LatchNode → LatchNode → LatchNode → Family LeafNode → BTree → BTree
store_leaves parent node link f t =
    store parent (internal f.parent) (store link (leaf f.sibling) (store node (leaf f.current) t))

-- One attempt of `deal_with_underflow` to steal, from the sibling at a link if there is one.
unfoldable pub steal_with :
    (ℕ → Family InternalNode → Outcome (Bool × Family InternalNode))
    → LatchNode
    → LatchNode
    → ℕ
    → Option LatchNode
    → BTree
    → Outcome (BTree × Bool)
unfolding internal_family
steal_with steal parent node edge_idx none t = done (t, false)
steal_with steal parent node edge_idx (some link) t = do
  f ← internal_family parent node link t
  stolen ← steal edge_idx f
  done (store_internals parent node link (stolen.1) t, stolen.0)

unfoldable pub merge_with_sibling : LatchNode → LatchNode → ℕ → BTree → Outcome BTree
unfolding internal_family find_child_left_sibling find_child_right_sibling
merge_with_sibling parent node edge_idx t = do
  parent_node ← internal_at parent t
  left_sibling ← find_child_left_sibling edge_idx parent_node
  elim left_sibling [
    | some link ↦ do
      f ← internal_family parent node link t
      merged ← Internal.merge_with_left edge_idx f
      done (store_internals parent node link merged t)
    | none ↦ do
      right_sibling ← find_child_right_sibling edge_idx parent_node
      elim right_sibling [
        | none ↦ done t
        | some link ↦ do
          f ← internal_family parent node link t
          merged ← Internal.merge_with_right edge_idx f
          done (store_internals parent node link merged t)
      ]
  ]

unfoldable pub deal_with_underflow : Option LatchNode → LatchNode → ℕ → BTree → Outcome BTree
unfolding steal_with merge_with_sibling find_child_left_sibling find_child_right_sibling
deal_with_underflow none node edge_idx t = done t
deal_with_underflow (some parent) node edge_idx t = do
  n ← internal_at node t
  if not (is_short n.keys n.order) then done t else (do
    parent_node ← internal_at parent t
    left_sibling ← find_child_left_sibling edge_idx parent_node
    left_stolen ← steal_with steal_from_left_sibling parent node edge_idx left_sibling t
    elim left_stolen.1 [
      | true ↦ done left_stolen.0
      | false ↦ do
        after_left ← internal_at parent left_stolen.0
        right_sibling ← find_child_right_sibling edge_idx after_left
        right_stolen ←
            steal_with steal_from_right_sibling parent node edge_idx right_sibling left_stolen.0
        elim right_stolen.1 [
          | true ↦ done right_stolen.0
          | false ↦ merge_with_sibling parent node edge_idx right_stolen.0
        ]
    ])

unfoldable pub merge_node : LatchNode → LatchNode → ℕ → BTree → Outcome BTree
unfolding leaf_family find_child_left_sibling find_child_right_sibling
merge_node parent node edge_idx t = do
  parent_node ← internal_at parent t
  left_sibling ← find_child_left_sibling edge_idx parent_node
  elim left_sibling [
    | some link ↦ do
      f ← leaf_family parent node link t
      merged ← Leaf.merge_with_left edge_idx f
      done (store_leaves parent node link merged t)
    | none ↦ do
      right_sibling ← find_child_right_sibling edge_idx parent_node
      elim right_sibling [
        | none ↦ panicked
        | some link ↦ do
          f ← leaf_family parent node link t
          merged ← Leaf.merge_with_right edge_idx f
          done (store_leaves parent node link merged t)
      ]
  ]

unfoldable pub find_next_largest_key :
    Key → LatchNode → LeafNode → Option LatchNode → BTree → Outcome Key
unfolding find_next_larger_key get_smallest_key
find_next_largest_key key_to_delete node n right_sibling t =
    elim (find_next_larger_key key_to_delete n.start_keys) [
      | some idx ↦ vec_at idx n.start_keys
      | none ↦ do
        link ← unwrap right_sibling
        if link == node
            then unfinished
            else (do right_leaf ← leaf_at link t; get_smallest_key right_leaf)
    ]

-- The leaf steals from its left sibling, if there is one.
unfoldable pub try_left :
    LatchNode → LatchNode → ℕ → Option LatchNode → BTree → Outcome (BTree × Bool)
unfolding leaf_family
try_left parent node edge_idx none t = done (t, false)
try_left parent node edge_idx (some link) t = do
  f ← leaf_family parent node link t
  stolen ← steal_from_left_leaf_sibling edge_idx f
  done (store_leaves parent node link (stolen.1) t, stolen.0)

unfoldable pub try_right :
    LatchNode → LatchNode → ℕ → Direction → Option LatchNode → BTree → Outcome (BTree × Option Key)
unfolding leaf_family
try_right parent node edge_idx dir none t = done (t, none)
try_right parent node edge_idx dir (some link) t = do
  f ← leaf_family parent node link t
  stolen ← steal_from_right_leaf_sibling edge_idx dir f
  done (store_leaves parent node link (stolen.1) t, stolen.0)

unfoldable pub delete_key :
    Key
    → Option (LatchNode × ℕ × Direction)
    → LatchNode
    → LeafNode
    → BTree
    → Outcome (BTree × Option Key)
unfolding remove_key find_next_largest_key try_left try_right merge_node find_child_left_sibling
    find_child_right_sibling
delete_key key_to_delete parent_info node n t = do
  removed ← remove_key key_to_delete n
  let deleted = store node (leaf removed.0) t
  if not removed.1 then done (deleted, none) else elim parent_info [
    | none ↦ done (deleted, none)
    | some info ↦ do
      parent_node ← internal_at info.0 deleted
      right_sibling ← find_child_right_sibling info.1 parent_node
      left_sibling ← find_child_left_sibling info.1 parent_node
      if not (is_short (removed.0).start_keys (removed.0).order)
          then (do
            next_key ← find_next_largest_key key_to_delete node removed.0 right_sibling deleted
            done (deleted, some next_key))
          else (do
            left_stolen ← try_left info.0 node info.1 left_sibling deleted
            elim left_stolen.1 [
              | true ↦ done (left_stolen.0, none)
              | false ↦ do
                right_stolen ← try_right info.0 node info.1 info.2 right_sibling left_stolen.0
                elim right_stolen.1 [
                  | some key ↦ done right_stolen
                  | none ↦ do
                    merged ← merge_node info.0 node info.1 right_stolen.0
                    done (merged, none)
                ]
            ])
  ]

-- The edge to follow, with the direction from its key.
unfoldable pub child_edge : Key → List Key → Option (ℕ × Direction)
child_edge key [] = none
child_edge key (k ∷ []) = if is_less key k then some (0, to_left) else some (1, to_right)
child_edge key (k ∷ l ∷ ks) =
    let rest = child_edge key (l ∷ ks) in
    if is_less key k
    then some (0, to_left)
    else elim rest [ none ↦ none | some found ↦ some (suc found.0, found.1) ]

-- The key of the grandparent that a new split key replaces, at the index of this node's key.
unfoldable pub update_parent : Option LatchNode → ℕ → Option Key → BTree → Outcome BTree
update_parent none key_idx new_split_key t = done t
update_parent (some parent) key_idx none t = done t
update_parent (some parent) key_idx (some key) t = do
  parent_node ← internal_at parent t
  updated ← update_key_at_index key_idx key parent_node
  done (store parent (internal updated) t)

unfoldable pub delete_helper :
    ℕ
    → Key
    → Option (LatchNode × ℕ × Direction)
    → LatchNode
    → Bool
    → BTree
    → Outcome (BTree × Option Key)
unfolding child_edge update_parent deal_with_underflow delete_key
delete_helper zero key_to_delete parent_info current_node is_ancestor_safe t = unfinished
delete_helper (suc fuel) key_to_delete parent_info current_node is_ancestor_safe t = do
  n ← node_at current_node t
  elim n [
    | leaf leaf_node ↦ delete_key key_to_delete parent_info current_node leaf_node t
    | internal internal_node ↦ do
      found ← unwrap (child_edge key_to_delete internal_node.keys)
      link ← vec_at found.0 internal_node.edges
      next_node ← edge link
      key_idx ← key_index found.1 found.0
      child ← node_at next_node t
      key ← vec_at key_idx internal_node.keys
      let is_edge_key = bytes_eq key key_to_delete
      if has_spare_key child && (not is_edge_key && is_ancestor_safe)
          then delete_helper fuel key_to_delete none next_node true t
          else (do
            below ←
                delete_helper fuel key_to_delete (some (current_node, found.0, found.1)) next_node
                  (not is_edge_key && is_ancestor_safe) t
            let parent : Option LatchNode = elim parent_info [
              | none ↦ none
              | some info ↦ some info.0
            ]
            updated ← update_parent parent key_idx below.1 below.0
            settled ← deal_with_underflow parent current_node found.0 updated
            done (settled, below.1))
  ]

-- The recursion goes down the tree, which has no more levels than nodes.
unfoldable pub delete : Key → BTree → Outcome BTree
unfolding delete_helper
delete key_to_delete t = do
  root_node ← unwrap t.root
  deleted ← delete_helper (suc t.next) key_to_delete none root_node true t
  root ← node_at root_node deleted.0
  elim root [
    | leaf n ↦ done deleted.0
    | internal n ↦ elim n.keys [
      | k ∷ ks ↦ done deleted.0
      | [] ↦ do
        first ← vec_at 0 n.edges
        new_root ← edge first
        done (record (deleted.0) { root = some new_root })
    ]
  ]
