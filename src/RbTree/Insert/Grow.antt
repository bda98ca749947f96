-- ===== src/RbTree/Insert/Grow.antt =====
-- The insertion of src/llrb/llrb.rs, with the restoring of the colours below a black node.
use little_key_value_db.Prelude.{
  ordering_cases, inl, inr, ℕ, suc, ◌+◌, ◌≡◌, refl, sym, ap, ◌∙◌, Bool, true, false, ◌∷◌, Option,
  some, Outcome, done, ◌>>=◌, All, All-append, if◌then◌else◌, ◌==◌, Bool-cases, ==_refl, arith,
}
use little_key_value_db.Storage.Bytes.{Key, bytes_cmp}
use little_key_value_db.RbTree.{
  RbTree, Node, nil, red, new_node, with_left, with_right, modify, add_node, is_red, black,
  with_color,
}
use little_key_value_db.RbTree.Insert.{descend, insert_node, fix_insert, fix_loop}
use little_key_value_db.RbTree.Shape.{
  AreAscending, Cell, Shape, leaf, branch, inorder, size, Holds, IsTree, height-size,
}
use little_key_value_db.RbTree.Insert.Order.{insert_sorted, ins_lem}
use little_key_value_db.RbTree.Insert.Walk.{
  starts_before, indices, ==_false_sym, IsAbsent, AreApart, ins, last, descend_lem, last-branch-All,
  ins-right, ins-left,
}
use little_key_value_db.RbTree.Insert.Link.{with_side, linked_nodes, grown, root_of-ins}

module _ {V : Type 0} where
  abbrev pub red_cell : Key → Key → V → Cell V
  red_cell start_key end_key value = record {
    start_key = start_key;
    end_key = end_key;
    value = value;
    color = red;
  }

  -- The tree with the new node below `prev`, whose node becomes `n`.
  abbrev pub tree_with : Key → Key → V → ℕ → Node V → RbTree V → RbTree V
  tree_with start_key end_key value prev n t = record t {
    nodes = linked_nodes t.nodes prev n t.len (new_node red start_key end_key value prev);
    len = t.len + 1;
  }

  -- The end of the insertion below `n`.
  abbrev pub restored : Node V → RbTree V → ℕ → Outcome (RbTree V)
  restored n t k = if n.parent_node == nil then done t else fix_insert k t

  side_after :
      (key : Key) (i : ℕ) (n : Node V) (b : Bool)
      → starts_before n.start_key key ≡ b
      → with_side key i n ≡ elim b [ true ↦ with_right i n | false ↦ with_left i n ]
  side_after key i n b e = ap (λ x. elim x [ true ↦ with_right i n | false ↦ with_left i n ]) e

  insert_run :
      (start_key end_key : Key) (value : V) (t : RbTree V) (prev : ℕ) (n : Node V)
      → descend (suc t.len) start_key t.root nil t ≡ done prev
      → (prev == nil) ≡ false
      → (t.len == prev) ≡ false
      → t.nodes prev ≡ some n
      → insert_node start_key end_key value t
        ≡ restored n (tree_with start_key end_key value prev (with_side start_key t.len n) t) t.len
  unfolding insert_node add_node modify starts_before
  insert_run start_key end_key value t prev n walk v w at_prev =
      elim (ordering_cases (bytes_cmp n.start_key start_key)) [
        | inl c ↦ rw (walk, ◌>>=◌, v, w, at_prev, c) (whole true (rw (starts_before, c) refl))
        | inr (inl c) ↦
            rw (walk, ◌>>=◌, v, w, at_prev, c) (whole false (rw (starts_before, c) refl))
        | inr (inr c) ↦
            rw (walk, ◌>>=◌, v, w, at_prev, c) (whole false (rw (starts_before, c) refl))
      ]
    where
      whole :
          (b : Bool)
          → starts_before n.start_key start_key ≡ b
          → restored n
              (tree_with start_key end_key value prev
                (elim b [ true ↦ with_right t.len n | false ↦ with_left t.len n ])
                t)
              t.len
            ≡ restored n
                (tree_with start_key end_key value prev (with_side start_key t.len n) t)
                t.len
      whole b e =
          ap (λ m. restored n (tree_with start_key end_key value prev m t) t.len)
            (sym (side_after start_key t.len n b e))

  indices-Holds :
      (nodes : ℕ → Option (Node V)) (parent : ℕ) (s : Shape V)
      → Holds nodes parent s
      → All (λ x. (x == nil) ≡ false) (indices s)
  indices-Holds nodes parent leaf h = tt
  indices-Holds nodes parent (branch l j d r) (n, e, hl, hr) =
      All-append (λ x. (x == nil) ≡ false) (indices l) (j ∷ indices r) (indices-Holds nodes j l hl)
        (n, indices-Holds nodes j r hr)

  size-ins : (i : ℕ) (c : Cell V) (s : Shape V) → size (ins i c s) ≡ suc (size s)
  unfolding ins
  size-ins i c leaf = refl
  size-ins i c (branch l j d r) = elim (Bool-cases (starts_before d.start_key c.start_key)) [
    | inl e ↦ rw (ins-right i j c d l r e) (omega (arith, size-ins i c r))
    | inr e ↦ rw (ins-left i j c d l r e) (omega (arith, size-ins i c l))
  ]

  -- The end of the insertion below `n`, where nothing is rotated below a black node.
  abbrev pub settled : Node V → RbTree V → ℕ → Outcome (RbTree V)
  settled n t k =
      if n.parent_node == nil
      then done t
      else if is_red n.color
      then fix_insert k t
      else modify t.root (with_color black) t

  fix_insert_below_black :
      (k : ℕ) (t : RbTree V) (m p : Node V)
      → t.nodes k ≡ some m
      → t.nodes m.parent_node ≡ some p
      → is_red p.color ≡ false
      → fix_insert k t ≡ modify t.root (with_color black) t
  unfolding fix_insert fix_loop
  fix_insert_below_black k t m p held parent black_parent =
      rw (held, ◌>>=◌, parent, black_parent) refl

  with_side_color : (key : Key) (i : ℕ) (n : Node V) → (with_side key i n).color ≡ n.color
  with_side_color key i n = elim (Bool-cases (starts_before n.start_key key)) [
    | inl e ↦ ap (λ (m : Node V). m.color) (side_after key i n true e)
    | inr e ↦ ap (λ (m : Node V). m.color) (side_after key i n false e)
  ]

  restored-settled :
      (start_key end_key : Key) (value : V) (t : RbTree V) (prev : ℕ) (n : Node V)
      → (t.len == prev) ≡ false
      → restored n (tree_with start_key end_key value prev (with_side start_key t.len n) t) t.len
        ≡ settled n (tree_with start_key end_key value prev (with_side start_key t.len n) t) t.len
  restored-settled start_key end_key value t prev n apart = elim (Bool-cases (is_red n.color)) [
    | inl redness ↦ rw (redness) refl
    | inr blackness ↦
        let t' = tree_with start_key end_key value prev (with_side start_key t.len n) t in
        let ends : fix_insert t.len t' ≡ modify t'.root (with_color black) t' =
          fix_insert_below_black t.len t' (new_node red start_key end_key value prev)
            (with_side start_key t.len n) (rw (==_false_sym t.len prev apart, ==_refl t.len) refl)
            (rw (==_refl prev) refl) (rw (with_side_color start_key t.len n) blackness) in
        rw (blackness) (ap (λ o. if n.parent_node == nil then done t' else o) ends)
  ]

  -- An insertion into a tree that is not empty and lists its ranges in the order of their starts finds
  -- the place and links a red node for the new range, and the nodes then hold a tree that lists the
  -- ranges with the new one in the order of the starts, before equal ones. That is the result if the
  -- parent of the new node is the root; if it is another black node, the root is made black and nothing
  -- else changes; if it is red, the result is what `fix_insert` makes of these nodes. No index stands
  -- at two places, and that of the new node is new and not `NIL`.
  pub insert_node_lem :
      (start_key end_key : Key) (value : V) (t : RbTree V) (l r : Shape V) (j : ℕ) (d : Cell V)
      → IsTree t (branch l j d r)
      → AreAscending (inorder (branch l j d r))
      → AreApart (branch l j d r)
      → IsAbsent (indices (branch l j d r)) t.len
      → (t.len == nil) ≡ false
      → (n : Node V) × (t' : RbTree V) × (s' : Shape V) × (t.nodes
            (last start_key nil (branch l j d r))
          ≡ some n)
        × IsTree t' s'
        × (inorder s' ≡ insert_sorted (red_cell start_key end_key value) (inorder (branch l j d r)))
        × AreAscending (inorder s')
        × (insert_node start_key end_key value t ≡ (
            if n.parent_node == nil
            then done t'
            else if is_red n.color
            then fix_insert t.len t'
            else modify t'.root (with_color black) t'))
  insert_node_lem start_key end_key value t l r j d i ascending apart absent v =
      let s : Shape V = branch l j d r in
      let c = red_cell start_key end_key value in
      let (n, at_prev, held) = grown t.nodes t.len nil c s v absent apart i.holds in
      let prev = last start_key nil s in
      (
        n,
        tree_with start_key end_key value prev (with_side start_key t.len n) t,
        ins t.len c s,
        at_prev,
        record {
          root = i.root ∙ sym (root_of-ins t.len j j c d l r);
          holds = held;
          full = omega (arith, size-ins t.len c s, i.full);
        },
        (ins_lem t.len c s ascending).0,
        (ins_lem t.len c s ascending).1,
        insert_run start_key end_key value t prev n
              (ap (λ root. descend (suc t.len) start_key root nil t) i.root
                ∙ descend_lem start_key nil s (suc t.len) t i.holds
                    (omega (arith, height-size s, i.full)))
              (last-branch-All (λ x. (x == nil) ≡ false) start_key nil j d l r
                (indices-Holds t.nodes nil s i.holds))
              (last-branch-All (λ x. (t.len == x) ≡ false) start_key nil j d l r absent) at_prev
            ∙ restored-settled start_key end_key value t prev n
                (last-branch-All (λ x. (t.len == x) ≡ false) start_key nil j d l r absent),
      )
