-- ===== src/Tests/Latches.antt =====
-- Test cases of src/latch_manager/latch_interval_btree_test.rs, and cases where the tree panics or waits
-- for itself.
use little_key_value_db.Prelude.{
  ℕ, zero, suc, ◌≡◌, refl, List, [], ◌∷◌, ◌++◌, Option, none, some, Outcome, done, panicked,
  unfinished, ◌>>=◌, unwrap,
}
use little_key_value_db.Storage.Bytes.{Key, bytes_cmp, bytes_eq}
use little_key_value_db.Execute.Span.{point}
use little_key_value_db.Latch.Node.{
  LatchNode, internal, leaf, is_spare, size, has_spare_key, is_underflow, update_key_at_index,
  insert_index, find_child_left_sibling, find_child_right_sibling,
}
use little_key_value_db.Latch.Node.Internal
use little_key_value_db.Latch.Node.Internal.{
  insert_node, steal_from_left_sibling, steal_from_right_sibling,
}
use little_key_value_db.Latch.Node.Leaf
use little_key_value_db.Latch.Node.Leaf.{
  LatchKeyGuard, acquired, not_acquired, find_key_idx, find_next_larger_key, insert_range,
  remove_at, remove_key, get_smallest_key, steal_smallest_key, steal_biggest_key,
  steal_from_left_leaf_sibling, steal_from_right_leaf_sibling,
}
use little_key_value_db.Latch.Tree.{BTree, new, node_at}
use little_key_value_db.Latch.Tree.Insert.{
  child_index, link_split, split_internal, insert_leaf, insert_helper, insert,
}
use little_key_value_db.Latch.Tree.Delete.{
  internal_family, leaf_family, steal_with, merge_with_sibling, deal_with_underflow, merge_node,
  find_next_largest_key, try_left, try_right, delete_key, child_edge, update_parent, delete_helper,
  delete,
}

-- The keys of the nodes, each before those below it.
abbrev mutual
  listing : ℕ → LatchNode → BTree → Outcome (List (List Key))
  listing zero link t = unfinished
  listing (suc fuel) link t = do
    n ← node_at link t
    elim n [
      | leaf l ↦ done (l.start_keys ∷ [])
      | internal i ↦ do below ← listing_all fuel i.edges t; done (i.keys ∷ below)
    ]

  listing_all : ℕ → List (Option LatchNode) → BTree → Outcome (List (List Key))
  listing_all zero links t = unfinished
  listing_all (suc fuel) [] t = done []
  listing_all (suc fuel) (none ∷ links) t = panicked
  listing_all (suc fuel) (some link ∷ links) t = do
    first ← listing fuel link t
    rest ← listing_all fuel links t
    done (first ++ rest)

abbrev pub with_keys : List ℕ → BTree → Outcome BTree
with_keys [] t = done t
with_keys (k ∷ ks) t = do inserted ← insert (point (k ∷ [])) t; with_keys ks inserted.0

abbrev pub without_keys : List ℕ → BTree → Outcome BTree
without_keys [] t = done t
without_keys (k ∷ ks) t = do deleted ← delete (k ∷ []) t; without_keys ks deleted

abbrev pub listed : Outcome BTree → Outcome (List (List Key))
listed o = do t ← o; root ← unwrap t.root; listing 20 root t

-- The source's test of an insertion.
inserted_keys :
    listed (with_keys (5 ∷ 10 ∷ 20 ∷ 15 ∷ 25 ∷ []) (new 3))
    ≡ done (
        ((15 ∷ []) ∷ [])
        ∷ ((10 ∷ []) ∷ [])
        ∷ ((5 ∷ []) ∷ [])
        ∷ ((10 ∷ []) ∷ [])
        ∷ ((20 ∷ []) ∷ [])
        ∷ ((15 ∷ []) ∷ [])
        ∷ ((20 ∷ []) ∷ (25 ∷ []) ∷ [])
        ∷ [])
unfolding bytes_cmp bytes_eq size has_spare_key is_underflow update_key_at_index insert_index
    find_child_left_sibling find_child_right_sibling Internal.split Internal.merge_with_left
    Internal.merge_with_right insert_node steal_from_left_sibling steal_from_right_sibling
    Leaf.split Leaf.merge_with_left Leaf.merge_with_right find_key_idx find_next_larger_key
    insert_range remove_at remove_key get_smallest_key steal_smallest_key steal_biggest_key
    steal_from_left_leaf_sibling steal_from_right_leaf_sibling child_index link_split split_internal
    insert_leaf insert_helper insert internal_family leaf_family steal_with merge_with_sibling
    deal_with_underflow merge_node find_next_largest_key try_left try_right delete_key child_edge
    update_parent delete_helper delete is_spare
inserted_keys = refl

-- The source's test of a deletion that steals from the left leaf.
stolen_keys :
    listed (with_keys (5 ∷ 10 ∷ 20 ∷ 15 ∷ 30 ∷ 18 ∷ []) (new 3) >>= without_keys (30 ∷ []))
    ≡ done (
        ((15 ∷ []) ∷ [])
        ∷ ((10 ∷ []) ∷ [])
        ∷ ((5 ∷ []) ∷ [])
        ∷ ((10 ∷ []) ∷ [])
        ∷ ((20 ∷ []) ∷ [])
        ∷ ((15 ∷ []) ∷ (18 ∷ []) ∷ [])
        ∷ ((20 ∷ []) ∷ [])
        ∷ [])
unfolding bytes_cmp bytes_eq size has_spare_key is_underflow update_key_at_index insert_index
    find_child_left_sibling find_child_right_sibling Internal.split Internal.merge_with_left
    Internal.merge_with_right insert_node steal_from_left_sibling steal_from_right_sibling
    Leaf.split Leaf.merge_with_left Leaf.merge_with_right find_key_idx find_next_larger_key
    insert_range remove_at remove_key get_smallest_key steal_smallest_key steal_biggest_key
    steal_from_left_leaf_sibling steal_from_right_leaf_sibling child_index link_split split_internal
    insert_leaf insert_helper insert internal_family leaf_family steal_with merge_with_sibling
    deal_with_underflow merge_node find_next_largest_key try_left try_right delete_key child_edge
    update_parent delete_helper delete is_spare
stolen_keys = refl

-- A deletion that merges leaves and internal nodes.
merged_keys :
    listed (with_keys (5 ∷ 10 ∷ 20 ∷ 15 ∷ 25 ∷ []) (new 3) >>= without_keys (25 ∷ 20 ∷ []))
    ≡ done
        (((10 ∷ []) ∷ (15 ∷ []) ∷ []) ∷ ((5 ∷ []) ∷ []) ∷ ((10 ∷ []) ∷ []) ∷ ((15 ∷ []) ∷ []) ∷ [])
unfolding bytes_cmp bytes_eq size has_spare_key is_underflow update_key_at_index insert_index
    find_child_left_sibling find_child_right_sibling Internal.split Internal.merge_with_left
    Internal.merge_with_right insert_node steal_from_left_sibling steal_from_right_sibling
    Leaf.split Leaf.merge_with_left Leaf.merge_with_right find_key_idx find_next_larger_key
    insert_range remove_at remove_key get_smallest_key steal_smallest_key steal_biggest_key
    steal_from_left_leaf_sibling steal_from_right_leaf_sibling child_index link_split split_internal
    insert_leaf insert_helper insert internal_family leaf_family steal_with merge_with_sibling
    deal_with_underflow merge_node find_next_largest_key try_left try_right delete_key child_edge
    update_parent delete_helper delete is_spare
merged_keys = refl

-- A deletion that locks the leaf a second time.
relocked :
    listed (with_keys (5 ∷ 10 ∷ 20 ∷ 15 ∷ 25 ∷ []) (new 3) >>= without_keys (10 ∷ [])) ≡ unfinished
unfolding bytes_cmp bytes_eq size has_spare_key is_underflow update_key_at_index insert_index
    find_child_left_sibling find_child_right_sibling Internal.split Internal.merge_with_left
    Internal.merge_with_right insert_node steal_from_left_sibling steal_from_right_sibling
    Leaf.split Leaf.merge_with_left Leaf.merge_with_right find_key_idx find_next_larger_key
    insert_range remove_at remove_key get_smallest_key steal_smallest_key steal_biggest_key
    steal_from_left_leaf_sibling steal_from_right_leaf_sibling child_index link_split split_internal
    insert_leaf insert_helper insert internal_family leaf_family steal_with merge_with_sibling
    deal_with_underflow merge_node find_next_largest_key try_left try_right delete_key child_edge
    update_parent delete_helper delete is_spare
relocked = refl

-- A deletion that steals from the right leaf.
moved_keys :
    listed (with_keys (5 ∷ 10 ∷ 20 ∷ 15 ∷ 25 ∷ []) (new 3) >>= without_keys (15 ∷ []))
    ≡ done (
        ((20 ∷ []) ∷ [])
        ∷ ((10 ∷ []) ∷ [])
        ∷ ((5 ∷ []) ∷ [])
        ∷ ((10 ∷ []) ∷ [])
        ∷ ((25 ∷ []) ∷ [])
        ∷ ((20 ∷ []) ∷ [])
        ∷ ((25 ∷ []) ∷ [])
        ∷ [])
unfolding bytes_cmp bytes_eq size has_spare_key is_underflow update_key_at_index insert_index
    find_child_left_sibling find_child_right_sibling Internal.split Internal.merge_with_left
    Internal.merge_with_right insert_node steal_from_left_sibling steal_from_right_sibling
    Leaf.split Leaf.merge_with_left Leaf.merge_with_right find_key_idx find_next_larger_key
    insert_range remove_at remove_key get_smallest_key steal_smallest_key steal_biggest_key
    steal_from_left_leaf_sibling steal_from_right_leaf_sibling child_index link_split split_internal
    insert_leaf insert_helper insert internal_family leaf_family steal_with merge_with_sibling
    deal_with_underflow merge_node find_next_largest_key try_left try_right delete_key child_edge
    update_parent delete_helper delete is_spare
moved_keys = refl

-- A second latch on the first key of a leaf.
latched_first :
    listed (with_keys (5 ∷ 10 ∷ 5 ∷ []) (new 3)) ≡ done (((5 ∷ []) ∷ (10 ∷ []) ∷ []) ∷ [])
unfolding bytes_cmp bytes_eq size has_spare_key is_underflow update_key_at_index insert_index
    find_child_left_sibling find_child_right_sibling Internal.split Internal.merge_with_left
    Internal.merge_with_right insert_node steal_from_left_sibling steal_from_right_sibling
    Leaf.split Leaf.merge_with_left Leaf.merge_with_right find_key_idx find_next_larger_key
    insert_range remove_at remove_key get_smallest_key steal_smallest_key steal_biggest_key
    steal_from_left_leaf_sibling steal_from_right_leaf_sibling child_index link_split split_internal
    insert_leaf insert_helper insert internal_family leaf_family steal_with merge_with_sibling
    deal_with_underflow merge_node find_next_largest_key try_left try_right delete_key child_edge
    update_parent delete_helper delete is_spare
latched_first = refl

-- A second latch on another key of a leaf.
latched_second : listed (with_keys (5 ∷ 10 ∷ 10 ∷ []) (new 3)) ≡ panicked
unfolding bytes_cmp bytes_eq size has_spare_key is_underflow update_key_at_index insert_index
    find_child_left_sibling find_child_right_sibling Internal.split Internal.merge_with_left
    Internal.merge_with_right insert_node steal_from_left_sibling steal_from_right_sibling
    Leaf.split Leaf.merge_with_left Leaf.merge_with_right find_key_idx find_next_larger_key
    insert_range remove_at remove_key get_smallest_key steal_smallest_key steal_biggest_key
    steal_from_left_leaf_sibling steal_from_right_leaf_sibling child_index link_split split_internal
    insert_leaf insert_helper insert internal_family leaf_family steal_with merge_with_sibling
    deal_with_underflow merge_node find_next_largest_key try_left try_right delete_key child_edge
    update_parent delete_helper delete is_spare
latched_second = refl
