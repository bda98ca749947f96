-- ===== src/RbTree/Shape.antt =====
-- What the nodes of src/llrb/llrb.rs stand for: an inductive tree with the index of each node.
use little_key_value_db.Prelude.{
  gt, ◌≢◌, All, Option, ℕ, suc, ◌+◌, ◌≤◌, max, ◌≡◌, false, List, [], ◌∷◌, ◌++◌, some, ◌==◌, arith,
}
use little_key_value_db.Storage.Bytes.{Key, bytes_cmp}
use little_key_value_db.RbTree.{RbTree, Node, TreeColor, nil}

-- A node without its links.
pub record Cell (V : Type 0) : Type 0 where
  pub start_key : Key
  pub end_key : Key
  pub value : V
  pub color : TreeColor

pub data Shape (V : Type 0) : Type 0 where
  leaf : Shape V
  branch : Shape V → ℕ → Cell V → Shape V → Shape V

-- The start keys do not decrease.
abbrev pub AreAscending : {V : Type 0} → List (Cell V) → Type 0
AreAscending [] = Unit
AreAscending (c ∷ cs) = All (λ d. bytes_cmp c.start_key d.start_key ≢ gt) cs × AreAscending cs

module _ {V : Type 0} where
  abbrev pub root_of : Shape V → ℕ
  root_of leaf = nil
  root_of (branch l i c r) = i

  abbrev pub linked : Cell V → ℕ → ℕ → ℕ → Node V
  linked c left_node right_node parent_node = record {
    start_key = c.start_key;
    end_key = c.end_key;
    value = c.value;
    left_node = left_node;
    right_node = right_node;
    parent_node = parent_node;
    color = c.color;
  }

  abbrev pub inorder : Shape V → List (Cell V)
  inorder leaf = []
  inorder (branch l i c r) = inorder l ++ (c ∷ inorder r)

  abbrev pub size : Shape V → ℕ
  size leaf = 0
  size (branch l i c r) = suc (size l + size r)

  abbrev pub height : Shape V → ℕ
  height leaf = 0
  height (branch l i c r) = suc (max (height l) (height r))

  -- The nodes hold the tree, below that parent.
  abbrev pub Holds : (ℕ → Option (Node V)) → ℕ → Shape V → Type 0
  Holds nodes parent leaf = Unit
  Holds nodes parent (branch l i c r) =
      ((i == nil) ≡ false)
      × (nodes i ≡ some (linked c (root_of l) (root_of r) parent))
      × Holds nodes i l
      × Holds nodes i r

  -- The tree is all that the vector holds.
  pub record IsTree (t : RbTree V) (s : Shape V) : Type 0 where
    pub root : t.root ≡ root_of s
    pub holds : Holds t.nodes nil s
    pub full : size s ≡ t.len

  pub height-size : (s : Shape V) → height s ≤ size s
  height-size leaf = omega arith
  height-size (branch l i c r) = omega (arith, height-size l, height-size r)
