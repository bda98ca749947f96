-- ===== src/RbTree/Keys.antt =====
-- The listings of the keys of src/llrb/llrb.rs, on fuel, and its assertions.
pub mod Listing
use little_key_value_db.Prelude.{
  ℕ, zero, suc, ◌+◌, ◌<◌, ◌≡◌, refl, ap, ◌∙◌, Bool, true, false, List, [], ◌∷◌, ◌++◌, map, Option,
  none, some, Outcome, done, panicked, unfinished, ◌>>=◌, if◌then◌else◌, ◌==◌, ==_refl, arith,
}
use little_key_value_db.Storage.Bytes.{Key}
use little_key_value_db.RbTree.{RbTree, Node, red, black, is_red, nil, at}
use little_key_value_db.RbTree.Insert.{is_red_at}
use little_key_value_db.RbTree.Shape.{
  Cell, Shape, leaf, branch, root_of, inorder, height, Holds, IsTree, height-size,
}

module _ {V : Type 0} where
  unfoldable pub left : Node V → RbTree V → Outcome (Option (Node V))
  left n t = if n.left_node == nil then done none else (do l ← at n.left_node t; done (some l))

  unfoldable pub right : Node V → RbTree V → Outcome (Option (Node V))
  right n t = if n.right_node == nil then done none else (do r ← at n.right_node t; done (some r))

  unfoldable pub preorder_keys_internal : ℕ → Option (Node V) → RbTree V → Outcome (List Key)
  unfolding left right
  preorder_keys_internal zero link t = unfinished
  preorder_keys_internal (suc fuel) none t = done []
  preorder_keys_internal (suc fuel) (some node) t = do
    left_node ← left node t
    left_tree_list ← preorder_keys_internal fuel left_node t
    right_node ← right node t
    right_tree_list ← preorder_keys_internal fuel right_node t
    done (node.start_key ∷ left_tree_list ++ right_tree_list)

  unfoldable pub to_preorder_keys : RbTree V → Outcome (List Key)
  unfolding preorder_keys_internal
  to_preorder_keys t = do node ← at t.root t; preorder_keys_internal (suc t.len) (some node) t

  unfoldable pub inorder_keys_internal : ℕ → Option (Node V) → RbTree V → Outcome (List Key)
  unfolding left right
  inorder_keys_internal zero link t = unfinished
  inorder_keys_internal (suc fuel) none t = done []
  inorder_keys_internal (suc fuel) (some node) t = do
    left_node ← left node t
    left_tree_list ← inorder_keys_internal fuel left_node t
    right_node ← right node t
    right_tree_list ← inorder_keys_internal fuel right_node t
    done (left_tree_list ++ (node.start_key ∷ right_tree_list))

  unfoldable pub to_inorder_keys : RbTree V → Outcome (List Key)
  unfolding inorder_keys_internal
  to_inorder_keys t = do node ← at t.root t; inorder_keys_internal (suc t.len) (some node) t

  -- An assertion that fails panics, and one that holds returns.
  unfoldable pub assert_colors : ℕ → ℕ → RbTree V → Outcome Bool
  unfolding is_red_at
  assert_colors zero k t = unfinished
  assert_colors (suc fuel) k t = do
    node ← at k t
    left_red ← is_red_at node.left_node t
    right_red ← is_red_at node.right_node t
    checked ← elim (is_red node.color) [
      | false ↦ done true
      | true ↦ if left_red then panicked else if right_red then panicked else done true
    ]
    left_checked ← elim (node.left_node == nil) [
      | true ↦ done true
      | false ↦ assert_colors fuel node.left_node t
    ]
    elim (node.right_node == nil) [
      | true ↦ done true
      | false ↦ assert_colors fuel node.right_node t
    ]

  unfoldable pub assert_black_count : ℕ → ℕ → RbTree V → Outcome ℕ
  assert_black_count zero k t = unfinished
  assert_black_count (suc fuel) k t = do
    node ← at k t
    left_count ← elim (node.left_node == nil) [
      | true ↦ done 1
      | false ↦ assert_black_count fuel node.left_node t
    ]
    right_count ← elim (node.right_node == nil) [
      | true ↦ done 1
      | false ↦ assert_black_count fuel node.right_node t
    ]
    if right_count == left_count
        then done (if is_red node.color then left_count else left_count + 1)
        else panicked

  unfoldable pub assert_rbtree_invariants : RbTree V → Outcome Bool
  unfolding is_red_at assert_black_count assert_colors
  assert_rbtree_invariants t = do
    root_red ← is_red_at t.root t
    if root_red then panicked else (do
      count ← assert_black_count (suc t.len) t.root t
      assert_colors (suc t.len) t.root t)
