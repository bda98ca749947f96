-- ===== src/Tests/Trees.antt =====
-- The test cases of src/llrb/llrb.rs.
use little_key_value_db.Prelude.{ℕ, ◌≡◌, refl, List, [], ◌∷◌, Outcome, done, ◌>>=◌}
use little_key_value_db.Storage.Bytes.{Key, bytes_cmp}
use little_key_value_db.RbTree.{
  RbTree, new, modify, detach, orphan, set_left, set_right, add_node, replace_child, right_rotate,
  left_rotate,
}
use little_key_value_db.RbTree.Insert.{
  is_red_at, recolor, turn, fix_round, fix_loop, fix_insert, descend, insert_node,
}
use little_key_value_db.RbTree.Keys.{
  left, right, to_inorder_keys, inorder_keys_internal, assert_rbtree_invariants, assert_colors,
  assert_black_count,
}

abbrev pub with_all : List ℕ → RbTree ℕ → Outcome (RbTree ℕ)
with_all [] t = done t
with_all (k ∷ ks) t = do inserted ← insert_node (k ∷ []) (3 ∷ []) 1 t; with_all ks inserted

-- The keys in order, after the assertions.
abbrev pub checked_keys : List ℕ → Outcome (List Key)
checked_keys ks = do t ← with_all ks new; checked ← assert_rbtree_invariants t; to_inorder_keys t

-- `insert_a_few_elements`, `case_3_1`, `case_3_2_1` and `case_3_2_2`
inserted_keys :
    (checked_keys (2 ∷ 1 ∷ 3 ∷ 0 ∷ []) ≡ done ((0 ∷ []) ∷ (1 ∷ []) ∷ (2 ∷ []) ∷ (3 ∷ []) ∷ []))
    × (checked_keys (61 ∷ 52 ∷ 85 ∷ 78 ∷ 93 ∷ 100 ∷ [])
        ≡ done ((52 ∷ []) ∷ (61 ∷ []) ∷ (78 ∷ []) ∷ (85 ∷ []) ∷ (93 ∷ []) ∷ (100 ∷ []) ∷ []))
    × (checked_keys (61 ∷ 52 ∷ 85 ∷ 93 ∷ 100 ∷ [])
        ≡ done ((52 ∷ []) ∷ (61 ∷ []) ∷ (85 ∷ []) ∷ (93 ∷ []) ∷ (100 ∷ []) ∷ []))
    × (checked_keys (61 ∷ 52 ∷ 85 ∷ 93 ∷ 87 ∷ [])
        ≡ done ((52 ∷ []) ∷ (61 ∷ []) ∷ (85 ∷ []) ∷ (87 ∷ []) ∷ (93 ∷ []) ∷ []))
unfolding bytes_cmp modify detach orphan set_left set_right add_node replace_child right_rotate
    left_rotate is_red_at recolor turn fix_round fix_loop fix_insert descend insert_node left right
    to_inorder_keys inorder_keys_internal assert_rbtree_invariants assert_colors assert_black_count
inserted_keys = (refl, refl, refl, refl)
