-- ===== src/RbTree/Insert/Walk.antt =====
-- The walk of `insert_node` of src/llrb/llrb.rs down the tree, and the place where it ends.
use little_key_value_db.Prelude.{
  ordering_cases, inl, inr, ℕ, zero, suc, ◌<◌, ◌≡◌, refl, lt, eq, gt, Bool, true, false, List, [],
  ◌∷◌, ◌++◌, done, ◌>>=◌, All, All-left, All-right, ◌==◌, Bool-cases, arith,
}
use little_key_value_db.Storage.Bytes.{Key, bytes_cmp}
use little_key_value_db.RbTree.{RbTree}
use little_key_value_db.RbTree.Insert.{descend}
use little_key_value_db.RbTree.Shape.{Cell, Shape, leaf, branch, root_of, height, Holds}

-- The walk goes to the right of a node that starts before the key.
unfoldable pub starts_before : Key → Key → Bool
starts_before start_key key = elim (bytes_cmp start_key key) [ lt ↦ true | eq ↦ false | gt ↦ false ]

abbrev pub IsAbsent : List ℕ → ℕ → Type 0
IsAbsent is j = All (λ i. (j == i) ≡ false) is

pub ==_false_sym : (a b : ℕ) → (a == b) ≡ false → (b == a) ≡ false
==_false_sym a b e = ground arith

module _ {V : Type 0} where
  abbrev pub indices : Shape V → List ℕ
  indices leaf = []
  indices (branch l i c r) = indices l ++ (i ∷ indices r)

  -- No index stands at two places.
  abbrev pub AreApart : Shape V → Type 0
  AreApart leaf = Unit
  AreApart (branch l i c r) =
      IsAbsent (indices l) i
      × IsAbsent (indices r) i
      × All (IsAbsent (indices r)) (indices l)
      × All (IsAbsent (indices l)) (indices r)
      × AreApart l
      × AreApart r

  -- The tree with a cell at the place that the walk finds, and the last node of the walk.
  unfoldable pub ins : ℕ → Cell V → Shape V → Shape V
  ins i c leaf = branch leaf i c leaf
  ins i c (branch l j d r) = elim (starts_before d.start_key c.start_key) [
    | true ↦ branch l j d (ins i c r)
    | false ↦ branch (ins i c l) j d r
  ]

  unfoldable pub last : Key → ℕ → Shape V → ℕ
  last key parent leaf = parent
  last key parent (branch l j d r) = elim (starts_before d.start_key key) [
    | true ↦ last key j r
    | false ↦ last key j l
  ]

  pub last-right :
      (key : Key) (parent j : ℕ) (l r : Shape V) (d : Cell V)
      → starts_before d.start_key key ≡ true
      → last key parent (branch l j d r) ≡ last key j r
  unfolding last
  last-right key parent j l r d e = rw (last, e) refl

  pub last-left :
      (key : Key) (parent j : ℕ) (l r : Shape V) (d : Cell V)
      → starts_before d.start_key key ≡ false
      → last key parent (branch l j d r) ≡ last key j l
  unfolding last
  last-left key parent j l r d e = rw (last, e) refl

  pub ins-right :
      (i j : ℕ) (c d : Cell V) (l r : Shape V)
      → starts_before d.start_key c.start_key ≡ true
      → ins i c (branch l j d r) ≡ branch l j d (ins i c r)
  unfolding ins
  ins-right i j c d l r e = rw (ins, e) refl

  pub ins-left :
      (i j : ℕ) (c d : Cell V) (l r : Shape V)
      → starts_before d.start_key c.start_key ≡ false
      → ins i c (branch l j d r) ≡ branch (ins i c l) j d r
  unfolding ins
  ins-left i j c d l r e = rw (ins, e) refl

  -- The walk ends at the last node before `NIL`, on fuel above the height.
  pub descend_lem :
      (key : Key) (parent : ℕ) (s : Shape V) (fuel : ℕ) (t : RbTree V)
      → Holds t.nodes parent s
      → height s < fuel
      → descend fuel key (root_of s) parent t ≡ done (last key parent s)
  unfolding descend last starts_before
  descend_lem key parent leaf zero t h f = ground arith
  descend_lem key parent leaf (suc fuel) t h f = refl
  descend_lem key parent (branch l j d r) zero t h f = ground arith
  descend_lem key parent (branch l j d r) (suc fuel) t (n, e, hl, hr) f =
      elim (ordering_cases (bytes_cmp d.start_key key)) [
        | inl c ↦
            rw (n, e, ◌>>=◌, c, last-right key parent j l r d (rw (starts_before, c) refl))
              (descend_lem key j r fuel t hr (omega (arith, f)))
        | inr (inl c) ↦
            rw (n, e, ◌>>=◌, c, last-left key parent j l r d (rw (starts_before, c) refl))
              (descend_lem key j l fuel t hl (omega (arith, f)))
        | inr (inr c) ↦
            rw (n, e, ◌>>=◌, c, last-left key parent j l r d (rw (starts_before, c) refl))
              (descend_lem key j l fuel t hl (omega (arith, f)))
      ]

  last-All :
      (P : ℕ → Type 0) (key : Key) (parent : ℕ) (s : Shape V)
      → P parent
      → All P (indices s)
      → P (last key parent s)
  unfolding last
  last-All P key parent leaf p a = p
  last-All P key parent (branch l j d r) p a = elim (Bool-cases (starts_before d.start_key key)) [
    | inl right ↦ rw (last-right key parent j l r d right) (
        last-All P key j r at_j
          (All-right P (j ∷ []) (indices r) (All-right P (indices l) (j ∷ indices r) a)))
    | inr left ↦
        rw (last-left key parent j l r d left)
          (last-All P key j l at_j (All-left P (indices l) (j ∷ indices r) a))
  ]
    where
      at_j : P j
      at_j = (All-right P (indices l) (j ∷ indices r) a).0

  pub last-branch-All :
      (P : ℕ → Type 0) (key : Key) (parent j : ℕ) (d : Cell V) (l r : Shape V)
      → All P (indices (branch l j d r))
      → P (last key parent (branch l j d r))
  last-branch-All P key parent j d l r a =
      let here = All-right P (indices l) (j ∷ indices r) a in
      elim (Bool-cases (starts_before d.start_key key)) [
        | inl right ↦ rw (last-right key parent j l r d right) (last-All P key j r here.0 here.1)
        | inr left ↦
            rw (last-left key parent j l r d left)
              (last-All P key j l here.0 (All-left P (indices l) (j ∷ indices r) a))
      ]
