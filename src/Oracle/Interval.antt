-- ===== src/Oracle/Interval.antt =====
-- `IntervalTree` of src/interval/interval_tree.rs: the search for overlapping ranges. The recursion
-- runs on fuel, one more than the number of nodes.
pub mod Overlap
use little_key_value_db.Prelude.{
  ℕ, zero, suc, Ordering, lt, eq, gt, Bool, true, false, List, [], ◌∷◌, ◌++◌, Outcome, done,
  unfinished, ◌>>=◌, if◌then◌else◌, ◌==◌,
}
use little_key_value_db.Storage.Bytes.{is_less, Key, bytes_cmp}
use little_key_value_db.RbTree.{RbTree, Node, nil, at}
use little_key_value_db.RbTree.Insert.{insert_node}
use little_key_value_db.Oracle.{does_range_overlap}

pub record RangeValue (V : Type 0) : Type 0 where
  pub start_key : Key
  pub end_key : Key
  pub value : V

module _ {V : Type 0} where
  -- `IntervalTree::insert`
  unfoldable pub insert : Key → Key → V → RbTree V → Outcome (RbTree V)
  insert start_key end_key value t = insert_node start_key end_key value t

  -- The overlaps with that of one node, where it overlaps.
  abbrev pub push_overlap : Key → Key → Key → Key → V → List (RangeValue V) → List (RangeValue V)
  push_overlap start_key end_key node_start node_end value overlaps =
      if does_range_overlap start_key end_key node_start node_end
      then overlaps ++ (record { start_key = node_start; end_key = node_end; value = value } ∷ [])
      else overlaps

  unfoldable pub collect_overlapping_nodes :
      ℕ → Key → Key → ℕ → RbTree V → List (RangeValue V) → Outcome (List (RangeValue V) × Bool)
  collect_overlapping_nodes zero start_key end_key node t overlaps = unfinished
  collect_overlapping_nodes (suc fuel) start_key end_key node t overlaps = elim (node == nil) [
    | true ↦ done (overlaps, false)
    | false ↦ do
      n ← at node t
      left ← collect_overlapping_nodes fuel start_key end_key n.left_node t overlaps
      elim left.1 [
        | true ↦ done (left.0, true)
        | false ↦
            let here = push_overlap start_key end_key n.start_key n.end_key n.value left.0 in
            elim (is_less end_key n.start_key) [
              | true ↦ done (here, true)
              | false ↦ collect_overlapping_nodes fuel start_key end_key n.right_node t here
            ]
      ]
  ]

  unfoldable pub get_overlap : Key → Key → RbTree V → Outcome (List (RangeValue V))
  unfolding collect_overlapping_nodes
  get_overlap start_key end_key t = do
    found ← collect_overlapping_nodes (suc t.len) start_key end_key t.root t []
    done found.0
