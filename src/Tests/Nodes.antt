-- ===== src/Tests/Nodes.antt =====
-- Nodes of the latch tree, small enough to follow by hand.
use little_key_value_db.Prelude.{
  ℕ, suc, ◌≤◌, ◌≡◌, ◌≢◌, refl, true, List, [], ◌∷◌, ◌++◌, Option, none, some, done, panicked,
  length,
}
use little_key_value_db.Storage.Bytes.{Key, bytes_cmp, bytes_eq}
use little_key_value_db.Execute.Span.{point}
use little_key_value_db.LockTable.Guard.{Range}
use little_key_value_db.Latch.Node.{
  LatchNode, InternalNode, LeafNode, Family, is_spare, IsBranch, keys_across, edges_across,
}
use little_key_value_db.Latch.Node.Internal.{
  steal_from_left_sibling, steal_from_right_sibling, merge_with_left, merge_with_right,
}
use little_key_value_db.Latch.Node.Internal
use little_key_value_db.Latch.Node.Internal.Steal.{IsBalanced, steal_from_left_sibling_lem}
use little_key_value_db.Latch.Node.Internal.Merge.{HasMerged, merge_with_left_lem, split-IsBranch}
use little_key_value_db.Latch.Node.Leaf
use little_key_value_db.Latch.Node.Leaf.{
  acquired, not_acquired, find_key_idx, insert_range, remove_key,
}
use little_key_value_db.Latch.Node.Leaf.Split.{IsPaired, AreLinked, split-IsPaired}
use little_key_value_db.Latch.Node.Leaf.Places.{IsAscending}
use little_key_value_db.Latch.Node.Leaf.Ranges.{
  Insertion, inserted, insert_range_lem, remove_key-insert_range, insert_range-insert_range,
  insert_range-present,
}

abbrev keyed : List ℕ → List Key
keyed [] = []
keyed (n ∷ ns) = (n ∷ []) ∷ keyed ns

abbrev linked : List ℕ → List (Option LatchNode)
linked [] = []
linked (n ∷ ns) = some n ∷ linked ns

abbrev branch : List ℕ → List ℕ → InternalNode
branch keys edges = record { keys = keyed keys; edges = linked edges; order = 3 }

abbrev parent_node : InternalNode
parent_node = branch (30 ∷ []) (7 ∷ 8 ∷ [])

-- The sibling stands on the left of the node.
abbrev left_family : Family InternalNode
left_family = record {
  current = branch (40 ∷ []) (4 ∷ 5 ∷ []);
  sibling = branch (10 ∷ 20 ∷ []) (1 ∷ 2 ∷ 3 ∷ []);
  parent = parent_node;
}

-- The sibling stands on the right of the node.
abbrev right_family : Family InternalNode
right_family = record {
  current = branch (10 ∷ []) (1 ∷ 2 ∷ []);
  sibling = branch (40 ∷ 50 ∷ []) (3 ∷ 4 ∷ 5 ∷ []);
  parent = parent_node;
}

abbrev key30 : Key
key30 = 30 ∷ []

steal_from_left_sibling_lem_example :
    (f' : Family InternalNode) × (k' : Key) × (steal_from_left_sibling 1 left_family
      ≡ done (true, f'))
    × (f'.parent ≡ record parent_node { keys = k' ∷ [] })
    × (keys_across f'.sibling k' f'.current
        ≡ keys_across left_family.sibling key30 left_family.current)
    × (edges_across f'.sibling f'.current ≡ edges_across left_family.sibling left_family.current)
    × IsBalanced left_family f'
unfolding is_spare
steal_from_left_sibling_lem_example =
    steal_from_left_sibling_lem left_family [] [] key30 refl refl refl refl

merge_with_left_lem_example :
    (f' : Family InternalNode) × (merge_with_left 1 left_family ≡ done f')
    × (f'.sibling.keys ≡ keyed (10 ∷ 20 ∷ 30 ∷ 40 ∷ []))
    × (f'.sibling.edges ≡ linked (1 ∷ 2 ∷ 3 ∷ 4 ∷ 5 ∷ []))
    × HasMerged parent_node f'.parent [] [] 7 8
    × IsBranch f'.sibling
merge_with_left_lem_example =
    merge_with_left_lem left_family [] [] key30 7 8 refl refl ([], [], refl, refl, refl)

abbrev full : InternalNode
full = branch (10 ∷ 20 ∷ 30 ∷ []) (1 ∷ 2 ∷ 3 ∷ 4 ∷ [])

split-IsBranch_example :
    (l : InternalNode) × (r : InternalNode) × (median : Key) × (Internal.split full
      ≡ done (l, r, median))
    × (keys_across l median r ≡ full.keys)
    × (edges_across l r ≡ full.edges)
    × IsBranch l
    × IsBranch r
    × (length r.keys ≤ length l.keys)
    × (length l.keys ≤ suc (length r.keys))
split-IsBranch_example = split-IsBranch full (10 ∷ []) (keyed (20 ∷ 30 ∷ [])) refl refl

abbrev ranges : LeafNode
ranges = record {
  start_keys = keyed (10 ∷ 20 ∷ 30 ∷ []);
  end_keys = keyed (15 ∷ 20 ∷ 35 ∷ []);
  left_ptr = none;
  right_ptr = some 9;
  order = 3;
  waiters = 0 ∷ [];
}

split-IsPaired_example :
    (l : LeafNode) × (r : LeafNode) × (first : Key) × (rest : List Key) × (Leaf.split 4 5 ranges
      ≡ done (l, r, first))
    × (r.start_keys ≡ first ∷ rest)
    × (l.start_keys ++ r.start_keys ≡ ranges.start_keys)
    × (l.end_keys ++ r.end_keys ≡ ranges.end_keys)
    × IsPaired l
    × IsPaired r
    × AreLinked 4 5 ranges l r
    × (length l.start_keys ≤ length r.start_keys)
    × (length r.start_keys ≤ suc (length l.start_keys))
split-IsPaired_example = split-IsPaired 4 5 ranges (10 ∷ []) (keyed (20 ∷ 30 ∷ [])) refl refl

ranges-IsAscending : IsAscending ranges.start_keys
unfolding bytes_cmp
ranges-IsAscending = ((refl, (refl, tt)), ((refl, tt), (tt, tt)))

absent25 : find_key_idx (25 ∷ []) ranges.start_keys ≡ none
unfolding find_key_idx bytes_eq
absent25 = refl

insert_range_lem_example :
    (i : Insertion (point (25 ∷ [])) ranges) × (insert_range (point (25 ∷ [])) ranges
      ≡ done (inserted i, acquired))
    × IsPaired (inserted i)
    × IsAscending (inserted i).start_keys
insert_range_lem_example =
    insert_range_lem (point (25 ∷ [])) ranges refl ranges-IsAscending absent25

remove_key-insert_range_example :
    (n' : LeafNode) × (insert_range (point (25 ∷ [])) ranges ≡ done (n', acquired))
    × (remove_key (25 ∷ []) n' ≡ done (ranges, true))
remove_key-insert_range_example =
    remove_key-insert_range (point (25 ∷ [])) ranges refl ranges-IsAscending absent25

abbrev longer : Range
longer = record { start_key = 25 ∷ []; end_key = 60 ∷ [] }

insert_range-insert_range_example :
    (n' : LeafNode) × (insert_range (point (25 ∷ [])) ranges ≡ done (n', acquired))
    × (insert_range longer n' ≢ done (ranges, acquired))
insert_range-insert_range_example =
    insert_range-insert_range (point (25 ∷ [])) longer ranges ranges refl ranges-IsAscending
      absent25 refl

insert_range-present_example : insert_range (point (20 ∷ [])) ranges ≡ panicked
unfolding find_key_idx bytes_eq
insert_range-present_example = insert_range-present (point (20 ∷ [])) ranges 0 1 refl refl
