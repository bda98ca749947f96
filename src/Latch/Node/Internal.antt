-- ===== src/Latch/Node/Internal.antt =====
-- The internal nodes of src/latch_manager/latch_interval_btree.rs.
pub mod Steal
pub mod Merge
use little_key_value_db.Prelude.{
  ℕ, zero, suc, ◌/◌, Bool, true, false, not, List, [], ◌∷◌, ◌++◌, Option, none, some, Outcome, done,
  panicked, ◌>>=◌, length, take, drop, ltb, vec_at, vec_set, vec_insert, vec_remove, previous,
  if◌then◌else◌,
}
use little_key_value_db.Storage.Bytes.{Key}
use little_key_value_db.Latch.Node.{LatchNode, InternalNode, Family, is_spare, insert_index}

abbrev pub new : ℕ → InternalNode
new capacity = record { keys = []; edges = []; order = capacity }

unfoldable pub insert_node : LatchNode → Key → InternalNode → Outcome InternalNode
unfolding insert_index
insert_node node insert_key n = do
  let insert_idx = insert_index insert_key n.keys
  keys ← vec_insert insert_idx insert_key n.keys
  edges ← vec_insert (suc insert_idx) (some node) n.edges
  done (record n { keys = keys; edges = edges })

unfoldable pub steal_from_left_sibling :
    ℕ → Family InternalNode → Outcome (Bool × Family InternalNode)
steal_from_left_sibling edge_idx f =
    if not (is_spare f.sibling.keys f.sibling.order) then done (false, f) else (do
      split_idx ← previous edge_idx
      parent_split_key ← vec_at split_idx f.parent.keys
      last_edge ← previous (length f.sibling.edges)
      stolen_edge ← vec_remove last_edge f.sibling.edges
      last_key ← previous (length f.sibling.keys)
      stolen_split_key ← vec_remove last_key f.sibling.keys
      parent_keys ← vec_set split_idx stolen_split_key.0 f.parent.keys
      done (
        true,
        record {
          current = record f.current {
            keys = parent_split_key ∷ f.current.keys;
            edges = stolen_edge.0 ∷ f.current.edges;
          };
          sibling = record f.sibling { keys = stolen_split_key.1; edges = stolen_edge.1 };
          parent = record f.parent { keys = parent_keys };
        },
      ))

unfoldable pub steal_from_right_sibling :
    ℕ → Family InternalNode → Outcome (Bool × Family InternalNode)
steal_from_right_sibling edge_idx f =
    if not (is_spare f.sibling.keys f.sibling.order) then done (false, f) else (do
      parent_split_key ← vec_at edge_idx f.parent.keys
      stolen_edge ← vec_remove 0 f.sibling.edges
      stolen_key ← vec_remove 0 f.sibling.keys
      parent_keys ← vec_set edge_idx stolen_key.0 f.parent.keys
      done (
        true,
        record {
          current = record f.current {
            keys = f.current.keys ++ (parent_split_key ∷ []);
            edges = f.current.edges ++ (stolen_edge.0 ∷ []);
          };
          sibling = record f.sibling { keys = stolen_key.1; edges = stolen_edge.1 };
          parent = record f.parent { keys = parent_keys };
        },
      ))

-- `merge_with_sibling` where there is a left sibling: it takes the current node's keys and edges.
unfoldable pub merge_with_left : ℕ → Family InternalNode → Outcome (Family InternalNode)
merge_with_left edge_idx f = do
  split_idx ← previous edge_idx
  parent_split_key ← vec_remove split_idx f.parent.keys
  parent_edges ← vec_remove edge_idx f.parent.edges
  done (record {
    current = record f.current { keys = []; edges = [] };
    sibling = record f.sibling {
      keys = f.sibling.keys ++ (parent_split_key.0 ∷ f.current.keys);
      edges = f.sibling.edges ++ f.current.edges;
    };
    parent = record f.parent { keys = parent_split_key.1; edges = parent_edges.1 };
  })

-- `merge_with_sibling` where there is only a right sibling: the current node takes its keys and edges.
unfoldable pub merge_with_right : ℕ → Family InternalNode → Outcome (Family InternalNode)
merge_with_right edge_idx f = do
  parent_split_key ← vec_remove edge_idx f.parent.keys
  parent_edges ← vec_remove (suc edge_idx) f.parent.edges
  done (record {
    current = record f.current {
      keys = f.current.keys ++ (parent_split_key.0 ∷ f.sibling.keys);
      edges = f.current.edges ++ f.sibling.edges;
    };
    sibling = record f.sibling { keys = []; edges = [] };
    parent = record f.parent { keys = parent_split_key.1; edges = parent_edges.1 };
  })

-- The node after the split, the new right node and the key between them.
unfoldable pub split : InternalNode → Outcome (InternalNode × InternalNode × Key)
split n = do
  let mid_idx = length n.keys / 2
  if ltb (length n.edges) (suc mid_idx) then panicked else (do
    right_start ← vec_remove 0 (drop mid_idx n.keys)
    done (
      record n { keys = take mid_idx n.keys; edges = take (suc mid_idx) n.edges },
      record { keys = right_start.1; edges = drop (suc mid_idx) n.edges; order = n.order },
      right_start.0,
    ))
