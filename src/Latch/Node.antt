-- ===== src/Latch/Node.antt =====
-- The nodes of src/latch_manager/latch_interval_btree.rs. A node is shared and behind a lock, so a link
-- is an address.
pub mod Vectors
pub mod Internal
pub mod Leaf
use little_key_value_db.Prelude.{
  ℕ, zero, suc, ◌/◌, Bool, List, [], ◌∷◌, Option, none, some, Outcome, ◌≡◌, ◌++◌, done, panicked,
  ◌>>=◌, length, ltb, ◌==◌, vec_at, vec_set, previous, if◌then◌else◌,
}
use little_key_value_db.Storage.Bytes.{Key, is_less}

-- `LatchNode`
abbrev pub LatchNode : Type 0
LatchNode = ℕ

pub data Direction : Type 0 where
  to_left to_right : Direction

pub record InternalNode : Type 0 where
  pub keys : List Key
  pub edges : List (Option LatchNode)
  pub order : ℕ

-- No message is sent through the senders of a `LatchWaiters`, so their number is all that there is.
abbrev pub LatchWaiters : Type 0
LatchWaiters = ℕ

pub record LeafNode : Type 0 where
  pub start_keys : List Key
  pub end_keys : List Key
  pub left_ptr : Option LatchNode
  pub right_ptr : Option LatchNode
  pub order : ℕ
  pub waiters : List LatchWaiters

pub data Node : Type 0 where
  internal : InternalNode → Node
  leaf : LeafNode → Node

abbrev pub as_internal_node : Node → Outcome InternalNode
as_internal_node (internal n) = done n
as_internal_node (leaf n) = panicked

abbrev pub as_leaf_node : Node → Outcome LeafNode
as_leaf_node (internal n) = panicked
as_leaf_node (leaf n) = done n

abbrev pub keys_of : Node → List Key
keys_of (internal n) = n.keys
keys_of (leaf n) = n.start_keys

abbrev pub order_of : Node → ℕ
order_of (internal n) = n.order
order_of (leaf n) = n.order

unfoldable pub size : Node → ℕ
size n = length (keys_of n)

-- `Node::get_lower`
unfoldable pub get_lower : Node → Option Key
get_lower n = elim (keys_of n) [ [] ↦ none | k ∷ ks ↦ some k ]

abbrev pub last_of : List Key → Option Key
last_of [] = none
last_of (k ∷ []) = some k
last_of (k ∷ l ∷ ks) = last_of (l ∷ ks)

-- `Node::get_upper`
unfoldable pub get_upper : Node → Option Key
get_upper n = last_of (keys_of n)

-- The tests on the number of keys, for a node of that order.
abbrev pub has_room : List Key → ℕ → Bool
has_room keys order = ltb (length keys) order

abbrev pub is_short : List Key → ℕ → Bool
is_short keys order = ltb (length keys) (order / 2)

unfoldable pub is_spare : List Key → ℕ → Bool
is_spare keys order = ltb (order / 2) (length keys)

-- `Node::is_underflow`
unfoldable pub is_underflow : Node → Bool
is_underflow n = is_short (keys_of n) (order_of n)

-- `Node::has_spare_key`
unfoldable pub has_spare_key : Node → Bool
has_spare_key n = is_spare (keys_of n) (order_of n)

-- `InternalNode::update_key_at_index`
unfoldable pub update_key_at_index : ℕ → Key → InternalNode → Outcome InternalNode
update_key_at_index idx new_key n = do
  keys ← vec_set idx new_key n.keys
  done (record n { keys = keys })

-- The index of the first key that is greater, or the number of keys.
unfoldable pub insert_index : Key → List Key → ℕ
insert_index key [] = 0
insert_index key (k ∷ ks) = let rest = insert_index key ks in if is_less key k then 0 else suc rest

unfoldable pub find_child_left_sibling : ℕ → InternalNode → Outcome (Option LatchNode)
find_child_left_sibling zero n = done none
find_child_left_sibling (suc idx) n = vec_at idx n.edges

unfoldable pub find_child_right_sibling : ℕ → InternalNode → Outcome (Option LatchNode)
find_child_right_sibling edge_idx n = do
  last_idx ← previous (length n.edges)
  if edge_idx == last_idx then done none else vec_at (suc edge_idx) n.edges

-- A node with a sibling and their parent.
pub record Family (N : Type 0) : Type 0 where
  pub current : N
  pub sibling : N
  pub parent : InternalNode

-- There is one more edge than keys.
abbrev pub IsBranch : InternalNode → Type 0
IsBranch n = length n.edges ≡ suc (length n.keys)

-- The keys and edges of a node and the next one, with the key between them.
abbrev pub keys_across : InternalNode → Key → InternalNode → List Key
keys_across l k r = l.keys ++ (k ∷ r.keys)

abbrev pub edges_across : InternalNode → InternalNode → List (Option LatchNode)
edges_across l r = l.edges ++ r.edges
