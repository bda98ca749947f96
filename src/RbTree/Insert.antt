-- ===== src/RbTree/Insert.antt =====
-- The insertion into the red-black tree of src/llrb/llrb.rs. Both loops run on fuel.
pub mod Walk
pub mod Link
pub mod Grow
pub mod Order
use little_key_value_db.Prelude.{
  ℕ, zero, suc, lt, eq, gt, Bool, true, false, Outcome, done, unfinished, ◌>>=◌, if◌then◌else◌,
  ◌==◌,
}
use little_key_value_db.Storage.Bytes.{Key, bytes_cmp}
use little_key_value_db.RbTree.{
  RbTree, red, black, is_red, nil, new_node, at, modify, with_left, with_right, with_color,
  add_node, left_rotate, right_rotate,
}

module _ {V : Type 0} where
  -- Whether the uncle is red: `NIL` counts as black.
  unfoldable pub is_red_at : ℕ → RbTree V → Outcome Bool
  is_red_at i t = if i == nil then done false else (do n ← at i t; done (is_red n.color))

  -- Case 3.1: the parent, the uncle and the grandparent change colour.
  unfoldable pub recolor : ℕ → ℕ → ℕ → RbTree V → Outcome (RbTree V)
  unfolding modify
  recolor uncle k_parent grand_parent t = do
    t1 ← modify uncle (with_color black) t
    t2 ← modify k_parent (with_color black) t1
    modify grand_parent (with_color red) t2

  -- The end of case 3.2: the parent and the grandparent of `k` change colour, and the grandparent is
  -- turned by the rotation.
  unfoldable pub turn : (ℕ → RbTree V → Outcome (RbTree V)) → ℕ → RbTree V → Outcome (RbTree V)
  unfolding modify
  turn rotate k t = do
    n ← at k t
    parent ← at n.parent_node t
    t1 ← modify n.parent_node (with_color black) t
    t2 ← modify parent.parent_node (with_color red) t1
    rotate parent.parent_node t2

  -- The body of the loop of `fix_insert`, with the next `k`.
  unfoldable pub fix_round : ℕ → RbTree V → Outcome (RbTree V × ℕ)
  unfolding is_red_at recolor turn
  fix_round k t = do
    n ← at k t
    p ← at n.parent_node t
    g ← at p.parent_node t
    if n.parent_node == g.right_node
        then (do
          uncle_red ← is_red_at g.left_node t
          if uncle_red
              then (do
                t1 ← recolor g.left_node n.parent_node p.parent_node t
                done (t1, p.parent_node))
              else if k == p.left_node
              then (do
                t1 ← right_rotate n.parent_node t
                t2 ← turn left_rotate n.parent_node t1
                done (t2, n.parent_node))
              else (do t1 ← turn left_rotate k t; done (t1, k)))
        else (do
          uncle_red ← is_red_at g.right_node t
          if uncle_red
              then (do
                t1 ← recolor g.right_node n.parent_node p.parent_node t
                done (t1, p.parent_node))
              else if k == p.right_node
              then (do
                t1 ← left_rotate n.parent_node t
                t2 ← turn right_rotate n.parent_node t1
                done (t2, n.parent_node))
              else (do t1 ← turn right_rotate k t; done (t1, k)))

  unfoldable pub fix_loop : ℕ → ℕ → RbTree V → Outcome (RbTree V)
  unfolding fix_round
  fix_loop zero k t = unfinished
  fix_loop (suc fuel) k t = do
    n ← at k t
    p ← at n.parent_node t
    elim (is_red p.color) [
      | false ↦ done t
      | true ↦ do
        fixed ← fix_round k t
        next ← at fixed.1 fixed.0
        elim (next.parent_node == nil) [
          | true ↦ done fixed.0
          | false ↦ fix_loop fuel fixed.1 fixed.0
        ]
    ]

  -- One round for each node is enough.
  unfoldable pub fix_insert : ℕ → RbTree V → Outcome (RbTree V)
  unfolding fix_loop
  fix_insert k t = do fixed ← fix_loop (suc t.len) k t; modify fixed.root (with_color black) fixed

  -- The walk down of `insert_node`: the last node before `NIL`.
  unfoldable pub descend : ℕ → Key → ℕ → ℕ → RbTree V → Outcome ℕ
  descend zero start_key cur prev t = unfinished
  descend (suc fuel) start_key cur prev t =
      let go_on = (do
        cur_node ← at cur t
        descend fuel start_key
            (elim (bytes_cmp cur_node.start_key start_key) [
              | lt ↦ cur_node.right_node
              | eq ↦ cur_node.left_node
              | gt ↦ cur_node.left_node
            ])
            cur t) in
      if cur == nil then done prev else go_on

  unfoldable pub insert_node : Key → Key → V → RbTree V → Outcome (RbTree V)
  insert_node start_key end_key value t = do
    prev ← descend (suc t.len) start_key t.root nil t
    if prev == nil
        then (let added = add_node (new_node black start_key end_key value nil) t in
            done (record (added.0) { root = added.1 }))
        else (do
          let added = add_node (new_node red start_key end_key value prev) t
          parent_node ← at prev (added.0)
          linked ←
              modify prev
                (elim (bytes_cmp parent_node.start_key start_key) [
                  | lt ↦ with_right (added.1)
                  | eq ↦ with_left (added.1)
                  | gt ↦ with_left (added.1)
                ])
                (added.0)
          if parent_node.parent_node == nil then done linked else fix_insert (added.1) linked)
