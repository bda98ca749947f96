-- ===== src/Latch/Node/Leaf.antt =====
-- The leaves of src/latch_manager/latch_interval_btree.rs.
pub mod Places
pub mod Ranges
pub mod Split
use little_key_value_db.Prelude.{
  ℕ, zero, suc, ◌+◌, ◌/◌, Bool, true, false, not, List, [], ◌∷◌, ◌++◌, Option, none, some, Outcome,
  done, panicked, ◌>>=◌, unwrap, length, take, drop, ltb, vec_at, vec_set, vec_insert, vec_remove,
  previous, if◌then◌else◌,
}
use little_key_value_db.Storage.Bytes.{Key, bytes_eq, is_less}
use little_key_value_db.LockTable.Guard.{Range}
use little_key_value_db.Latch.Node.{
  LatchNode, Direction, to_left, to_right, InternalNode, LeafNode, Family, is_spare, insert_index,
  update_key_at_index, last_of,
}

abbrev pub new : ℕ → LeafNode
new capacity = record {
  start_keys = [];
  end_keys = [];
  left_ptr = none;
  right_ptr = none;
  order = capacity;
  waiters = 0 ∷ [];
}

pub data LatchKeyGuard : Type 0 where
  acquired not_acquired : LatchKeyGuard

unfoldable pub find_key_idx : Key → List Key → Option ℕ
find_key_idx key [] = none
find_key_idx key (k ∷ ks) =
    let rest = find_key_idx key ks in
    if bytes_eq k key then some 0 else elim rest [ none ↦ none | some i ↦ some (suc i) ]

unfoldable pub find_next_larger_key : Key → List Key → Option ℕ
find_next_larger_key key [] = none
find_next_larger_key key (k ∷ ks) =
    let rest = find_next_larger_key key ks in
    if is_less key k then some 0 else elim rest [ none ↦ none | some i ↦ some (suc i) ]

unfoldable pub insert_range : Range → LeafNode → Outcome (LeafNode × LatchKeyGuard)
unfolding find_key_idx insert_index
insert_range range n = elim (find_key_idx range.start_key n.start_keys) [
  | some found_idx ↦ do
    senders ← vec_at found_idx n.waiters
    waiters ← vec_set found_idx (senders + 1) n.waiters
    done (record n { waiters = waiters }, not_acquired)
  | none ↦ do
    let insert_idx = insert_index range.start_key n.start_keys
    start_keys ← vec_insert insert_idx range.start_key n.start_keys
    end_keys ← vec_insert insert_idx range.end_key n.end_keys
    done (record n { start_keys = start_keys; end_keys = end_keys }, acquired)
]

-- The leaf without the range at an index, and the range.
unfoldable pub remove_at : ℕ → LeafNode → Outcome (LeafNode × Range)
remove_at idx n = do
  start_key ← vec_remove idx n.start_keys
  end_key ← vec_remove idx n.end_keys
  done (
    record n { start_keys = start_key.1; end_keys = end_key.1 },
    record { start_key = start_key.0; end_key = end_key.0 },
  )

unfoldable pub remove_key : Key → LeafNode → Outcome (LeafNode × Bool)
unfolding find_key_idx remove_at
remove_key key_to_delete n = elim (find_key_idx key_to_delete n.start_keys) [
  | some idx ↦ do removed ← remove_at idx n; done (removed.0, true)
  | none ↦ done (n, false)
]

unfoldable pub get_smallest_key : LeafNode → Outcome Key
get_smallest_key n = vec_at 0 n.start_keys

unfoldable pub get_largest : LeafNode → Outcome Key
get_largest n = unwrap (last_of n.start_keys)

unfoldable pub steal_smallest_key : LeafNode → Outcome (LeafNode × Range)
unfolding remove_at
steal_smallest_key n = if not (is_spare n.start_keys n.order) then panicked else remove_at 0 n

unfoldable pub steal_biggest_key : LeafNode → Outcome (LeafNode × Range)
unfolding remove_at
steal_biggest_key n =
    if not (is_spare n.start_keys n.order)
    then panicked
    else (do idx ← previous (length n.start_keys); remove_at idx n)

-- The index of the key that an edge belongs to.
abbrev pub key_index : Direction → ℕ → Outcome ℕ
key_index to_left edge_idx = done edge_idx
key_index to_right edge_idx = previous edge_idx

-- The stolen key, if the right sibling has one to spare.
unfoldable pub steal_from_right_leaf_sibling :
    ℕ → Direction → Family LeafNode → Outcome (Option Key × Family LeafNode)
unfolding steal_smallest_key insert_range update_key_at_index get_smallest_key
steal_from_right_leaf_sibling edge_idx dir f =
    if not (is_spare f.sibling.start_keys f.sibling.order) then done (none, f) else (do
      stolen ← steal_smallest_key f.sibling
      inserted ← insert_range stolen.1 f.current
      key_idx ← key_index dir edge_idx
      lower ← get_smallest_key stolen.0
      parent ← update_key_at_index key_idx lower f.parent
      done (
        some stolen.1.start_key,
        record { current = inserted.0; sibling = stolen.0; parent = parent },
      ))

unfoldable pub steal_from_left_leaf_sibling : ℕ → Family LeafNode → Outcome (Bool × Family LeafNode)
unfolding steal_biggest_key insert_range update_key_at_index
steal_from_left_leaf_sibling edge_idx f =
    if not (is_spare f.sibling.start_keys f.sibling.order) then done (false, f) else (do
      stolen ← steal_biggest_key f.sibling
      inserted ← insert_range stolen.1 f.current
      key_idx ← previous edge_idx
      parent ← update_key_at_index key_idx stolen.1.start_key f.parent
      done (true, record { current = inserted.0; sibling = stolen.0; parent = parent }))

-- `merge_node` where there is a left sibling: it takes the current leaf's ranges.
unfoldable pub merge_with_left : ℕ → Family LeafNode → Outcome (Family LeafNode)
merge_with_left edge_idx f = do
  parent_edges ← vec_remove edge_idx f.parent.edges
  split_idx ← previous edge_idx
  parent_keys ← vec_remove split_idx f.parent.keys
  done (record {
    current = record f.current { start_keys = []; end_keys = []; right_ptr = none };
    sibling = record f.sibling {
      start_keys = f.sibling.start_keys ++ f.current.start_keys;
      end_keys = f.sibling.end_keys ++ f.current.end_keys;
      right_ptr = f.current.right_ptr;
    };
    parent = record f.parent { keys = parent_keys.1; edges = parent_edges.1 };
  })

-- `merge_node` where there is only a right sibling: the current leaf takes its ranges.
unfoldable pub merge_with_right : ℕ → Family LeafNode → Outcome (Family LeafNode)
merge_with_right edge_idx f = do
  parent_edges ← vec_remove (suc edge_idx) f.parent.edges
  parent_keys ← vec_remove edge_idx f.parent.keys
  done (record {
    current = record f.current {
      start_keys = f.current.start_keys ++ f.sibling.start_keys;
      end_keys = f.current.end_keys ++ f.sibling.end_keys;
      right_ptr = f.sibling.right_ptr;
    };
    sibling = record f.sibling { start_keys = []; end_keys = []; right_ptr = none };
    parent = record f.parent { keys = parent_keys.1; edges = parent_edges.1 };
  })

-- The leaf after the split, the new right leaf and its smallest key. The links are those of the leaf
-- and of the new one.
unfoldable pub split : LatchNode → LatchNode → LeafNode → Outcome (LeafNode × LeafNode × Key)
split node right_latch_node n = do
  let mid = length n.start_keys / 2
  if ltb (length n.end_keys) mid then panicked else (do
    right_start ← vec_at 0 (drop mid n.start_keys)
    done (
      record n {
        start_keys = take mid n.start_keys;
        end_keys = take mid n.end_keys;
        right_ptr = some right_latch_node;
      },
      record {
        start_keys = drop mid n.start_keys;
        end_keys = drop mid n.end_keys;
        left_ptr = some node;
        right_ptr = n.right_ptr;
        order = n.order;
        waiters = 0 ∷ [];
      },
      right_start,
    ))
