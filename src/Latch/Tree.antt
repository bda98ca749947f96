-- ===== src/Latch/Tree.antt =====
-- `BTree` of src/latch_manager/latch_interval_btree.rs. The nodes are held by address. A call that
-- locks a node which it has locked already waits for itself. The recursions run on fuel.
pub mod Insert
pub mod Delete
use little_key_value_db.Prelude.{
  ℕ, zero, suc, ◌+◌, Bool, true, false, List, [], ◌∷◌, Option, none, some, Outcome, done, panicked,
  unfinished, ◌>>=◌, unwrap, if◌then◌else◌, ◌==◌,
}
use little_key_value_db.Latch.Node.{
  LatchNode, Node, internal, leaf, InternalNode, LeafNode, as_internal_node, as_leaf_node,
}
use little_key_value_db.Latch.Node.Leaf

pub record BTree : Type 0 where
  pub nodes : LatchNode → Option Node
  pub next : LatchNode
  pub root : Option LatchNode
  pub order : ℕ

abbrev pub store : LatchNode → Node → BTree → BTree
store link n t = record t { nodes = λ q. if link == q then some n else t.nodes q }

-- A new node, with its address.
abbrev pub allocate : Node → BTree → BTree × LatchNode
allocate n t = (record (store t.next n t) { next = t.next + 1 }, t.next)

-- `BTree::new`
abbrev pub new : ℕ → BTree
new capacity = record {
  nodes = λ q. if 0 == q then some (leaf (Leaf.new capacity)) else none;
  next = 1;
  root = some 0;
  order = capacity;
}

abbrev pub node_at : LatchNode → BTree → Outcome Node
node_at link t = unwrap (t.nodes link)

abbrev pub internal_at : LatchNode → BTree → Outcome InternalNode
internal_at link t = node_at link t >>= as_internal_node

abbrev pub leaf_at : LatchNode → BTree → Outcome LeafNode
leaf_at link t = node_at link t >>= as_leaf_node

-- `edges[idx].clone().unwrap()`
abbrev pub edge : Option LatchNode → Outcome LatchNode
edge link = unwrap link
