-- ===== src/RbTree.antt =====
-- src/llrb/llrb.rs: the red-black tree of ranges. The vector of nodes is a partial function on
-- indices, and a node is never removed, so an access at an index that has no node is the panic of
-- an index out of bounds. `NIL` is the greatest usize.
pub mod Insert
pub mod Shape
pub mod Keys
use little_key_value_db.Prelude.{
  ℕ, ◌+◌, ◌-◌, ◌^◌, Bool, true, false, ◌&&◌, not, Option, none, some, Outcome, done, panicked,
  ◌>>=◌, unwrap, if◌then◌else◌, ◌==◌,
}
use little_key_value_db.Storage.Bytes.{Key}

pub data TreeColor : Type 0 where
  red black : TreeColor

abbrev pub is_red : TreeColor → Bool
is_red red = true
is_red black = false

-- `NIL`, which is `std::usize::MAX`
abbrev pub nil : ℕ
nil = 2 ^ 64 - 1

pub record Node (V : Type 0) : Type 0 where
  pub start_key : Key
  pub end_key : Key
  pub value : V
  pub left_node : ℕ
  pub right_node : ℕ
  pub parent_node : ℕ
  pub color : TreeColor

pub record RbTree (V : Type 0) : Type 0 where
  pub nodes : ℕ → Option (Node V)
  pub len : ℕ
  pub root : ℕ

module _ {V : Type 0} where
  -- `Node::new_node`
  abbrev pub new_node : TreeColor → Key → Key → V → ℕ → Node V
  new_node color start_key end_key value parent_node = record {
    start_key = start_key;
    end_key = end_key;
    value = value;
    left_node = nil;
    right_node = nil;
    parent_node = parent_node;
    color = color;
  }

  -- `RbTree::new`
  abbrev pub new : RbTree V
  new = record { nodes = λ i. none; len = 0; root = nil }

  -- `nodes[i]`, and a write of one node
  abbrev pub at : ℕ → RbTree V → Outcome (Node V)
  at i t = unwrap (t.nodes i)

  abbrev pub store : ℕ → Node V → RbTree V → RbTree V
  store i n t = record t { nodes = λ q. if i == q then some n else t.nodes q }

  unfoldable pub modify : ℕ → (Node V → Node V) → RbTree V → Outcome (RbTree V)
  modify i f t = do n ← at i t; done (store i (f n) t)

  abbrev pub with_left : ℕ → Node V → Node V
  with_left i n = record n { left_node = i }

  abbrev pub with_right : ℕ → Node V → Node V
  with_right i n = record n { right_node = i }

  abbrev pub with_parent : ℕ → Node V → Node V
  with_parent i n = record n { parent_node = i }

  abbrev pub with_color : TreeColor → Node V → Node V
  with_color c n = record n { color = c }

  -- The old parent of the new child loses it.
  unfoldable pub detach : ℕ → RbTree V → Outcome (RbTree V)
  unfolding modify
  detach child t = do
    n ← at child t
    if n.parent_node == nil then done t else (do
      p ← at n.parent_node t
      if p.left_node == child
          then modify n.parent_node (with_left nil) t
          else modify n.parent_node (with_right nil) t)

  -- The old child loses its parent.
  unfoldable pub orphan : ℕ → RbTree V → Outcome (RbTree V)
  unfolding modify
  orphan child t = if child == nil then done t else modify child (with_parent nil) t

  unfoldable pub set_left : ℕ → ℕ → RbTree V → Outcome (RbTree V)
  unfolding modify detach orphan
  set_left parent new_left t =
      if parent == nil
      then panicked
      else if new_left == nil
      then modify parent (with_left nil) t
      else (do
        detached ← detach new_left t
        p ← at parent detached
        orphaned ← orphan p.left_node detached
        linked ← modify parent (with_left new_left) orphaned
        modify new_left (with_parent parent) linked)

  unfoldable pub set_right : ℕ → ℕ → RbTree V → Outcome (RbTree V)
  unfolding modify detach orphan
  set_right parent new_right t =
      if parent == nil
      then panicked
      else if new_right == nil
      then modify parent (with_right nil) t
      else (do
        detached ← detach new_right t
        p ← at parent detached
        orphaned ← orphan p.right_node detached
        linked ← modify parent (with_right new_right) orphaned
        modify new_right (with_parent parent) linked)

  -- `add_node`, with the index of the added node
  unfoldable pub add_node : Node V → RbTree V → RbTree V × ℕ
  add_node node t = (record (store t.len node t) { len = t.len + 1 }, t.len)

  -- The start of both rotations: the child takes the place of `k` under the parent of `k`.
  unfoldable pub replace_child : ℕ → ℕ → ℕ → RbTree V → Outcome (RbTree V)
  unfolding set_left set_right
  replace_child k child parent t =
      if parent == nil then modify child (with_parent nil) (record t { root = child }) else (do
        p ← at parent t
        if p.right_node == k then set_right parent child t else set_left parent child t)

  unfoldable pub right_rotate : ℕ → RbTree V → Outcome (RbTree V)
  unfolding replace_child
  right_rotate k t = do
    n ← at k t
    l ← at n.left_node t
    replaced ← replace_child k n.left_node n.parent_node t
    turned ← set_right n.left_node k replaced
    set_left k l.right_node turned

  unfoldable pub left_rotate : ℕ → RbTree V → Outcome (RbTree V)
  unfolding replace_child
  left_rotate k t = do
    n ← at k t
    r ← at n.right_node t
    replaced ← replace_child k n.right_node n.parent_node t
    turned ← set_left n.right_node k replaced
    set_right k r.left_node turned
