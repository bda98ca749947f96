-- ===== src/RbTree/Insert/Link.antt =====
-- The nodes of src/llrb/llrb.rs after `insert_node` has linked the new node.
use little_key_value_db.Prelude.{
  inl, inr, ℕ, ◌≡◌, refl, ap, ◌∙◌, true, false, List, [], ◌∷◌, Option, some, All, All-left,
  All-right, if◌then◌else◌, ◌==◌, ==_refl, Bool-cases,
}
use little_key_value_db.Storage.Bytes.{Key}
use little_key_value_db.RbTree.{Node, nil, with_left, with_right}
use little_key_value_db.RbTree.Shape.{Cell, Shape, leaf, branch, root_of, linked, Holds}
use little_key_value_db.RbTree.Insert.Walk.{
  starts_before, indices, IsAbsent, AreApart, ==_false_sym, ins, last, last-right, last-left,
  ins-right, ins-left, last-branch-All,
}

module _ {V : Type 0} where
  -- The new node as the child of `n` on the side that the key asks for.
  abbrev pub with_side : Key → ℕ → Node V → Node V
  with_side key i n = elim (starts_before n.start_key key) [
    | true ↦ with_right i n
    | false ↦ with_left i n
  ]

  -- The nodes with `new` at `i`, and then `n` at `prev`.
  abbrev pub linked_nodes : (ℕ → Option (Node V)) → ℕ → Node V → ℕ → Node V → ℕ → Option (Node V)
  linked_nodes nodes prev n i new q =
      if prev == q then some n else if i == q then some new else nodes q

  -- The last node of the walk exists, and with the new node below it the nodes hold the grown tree.
  abbrev pub IsLinked : (ℕ → Option (Node V)) → ℕ → Cell V → ℕ → Shape V → Type 0
  IsLinked nodes i c parent s =
      (n : Node V) × (nodes (last c.start_key parent s) ≡ some n)
      × Holds
          (linked_nodes nodes (last c.start_key parent s) (with_side c.start_key i n) i
            (linked c nil nil (last c.start_key parent s)))
          parent (ins i c s)

  Holds-frame :
      (nodes after : ℕ → Option (Node V)) (parent : ℕ) (s : Shape V)
      → All (λ q. after q ≡ nodes q) (indices s)
      → Holds nodes parent s
      → Holds after parent s
  Holds-frame nodes after parent leaf a h = tt
  Holds-frame nodes after parent (branch l j d r) a (n, e, hl, hr) =
      let here = All-right (λ q. after q ≡ nodes q) (indices l) (j ∷ indices r) a in
      (
        n,
        here.0 ∙ e,
        Holds-frame nodes after j l
            (All-left (λ q. after q ≡ nodes q) (indices l) (j ∷ indices r) a) hl,
        Holds-frame nodes after j r here.1 hr,
      )

  unlinked :
      (nodes : ℕ → Option (Node V)) (prev i : ℕ) (n new : Node V) (is : List ℕ)
      → IsAbsent is prev
      → IsAbsent is i
      → All (λ q. linked_nodes nodes prev n i new q ≡ nodes q) is
  unlinked nodes prev i n new [] a b = tt
  unlinked nodes prev i n new (q ∷ is) (a, xs) (b, ys) =
      (rw (a, b) refl, unlinked nodes prev i n new is xs ys)

  pub root_of-ins :
      (i j k : ℕ) (c d : Cell V) (l r : Shape V) → root_of (ins i c (branch l j d r)) ≡ j
  root_of-ins i j k c d l r = elim (Bool-cases (starts_before d.start_key c.start_key)) [
    | inl right ↦ ap root_of (ins-right i j c d l r right)
    | inr left ↦ ap root_of (ins-left i j c d l r left)
  ]

  on_right :
      (key : Key) (i a b p : ℕ) (d : Cell V)
      → starts_before d.start_key key ≡ true
      → with_side key i (linked d a b p) ≡ linked d a i p
  on_right key i a b p d e =
      ap (λ right. elim right [ true ↦ linked d a i p | false ↦ linked d i b p ]) e

  on_left :
      (key : Key) (i a b p : ℕ) (d : Cell V)
      → starts_before d.start_key key ≡ false
      → with_side key i (linked d a b p) ≡ linked d i b p
  on_left key i a b p d e =
      ap (λ right. elim right [ true ↦ linked d a i p | false ↦ linked d i b p ]) e

  right_leaf :
      (nodes : ℕ → Option (Node V)) (i j parent : ℕ) (c d : Cell V) (l : Shape V)
      → (i == nil) ≡ false
      → (i == j) ≡ false
      → IsAbsent (indices l) i
      → IsAbsent (indices l) j
      → starts_before d.start_key c.start_key ≡ true
      → Holds nodes parent (branch l j d leaf)
      → IsLinked nodes i c parent (branch l j d leaf)
  unfolding ins last
  right_leaf nodes i j parent c d l v w a b e (n, at_j, hl, hr) =
      rw (last-right c.start_key parent j l leaf d e, ins-right i j c d l leaf e)
        (
          linked d (root_of l) nil parent,
          at_j,
          (
            n,
            rw (==_refl j) (ap some (on_right c.start_key i (root_of l) nil parent d e)),
            Holds-frame nodes _ j l (unlinked nodes j i _ _ (indices l) b a) hl,
            (v, rw (==_false_sym i j w, ==_refl i) refl, tt, tt),
          ),
        )

  left_leaf :
      (nodes : ℕ → Option (Node V)) (i j parent : ℕ) (c d : Cell V) (r : Shape V)
      → (i == nil) ≡ false
      → (i == j) ≡ false
      → IsAbsent (indices r) i
      → IsAbsent (indices r) j
      → starts_before d.start_key c.start_key ≡ false
      → Holds nodes parent (branch leaf j d r)
      → IsLinked nodes i c parent (branch leaf j d r)
  unfolding ins last
  left_leaf nodes i j parent c d r v w a b e (n, at_j, hl, hr) =
      rw (last-left c.start_key parent j leaf r d e, ins-left i j c d leaf r e)
        (
          linked d nil (root_of r) parent,
          at_j,
          (
            n,
            rw (==_refl j) (ap some (on_left c.start_key i nil (root_of r) parent d e)),
            (v, rw (==_false_sym i j w, ==_refl i) refl, tt, tt),
            Holds-frame nodes _ j r (unlinked nodes j i _ _ (indices r) b a) hr,
          ),
        )

  right_below :
      (nodes : ℕ → Option (Node V)) (i j parent : ℕ) (c d : Cell V) (l r : Shape V)
      → (last c.start_key j r == j) ≡ false
      → (i == j) ≡ false
      → IsAbsent (indices l) i
      → IsAbsent (indices l) (last c.start_key j r)
      → root_of (ins i c r) ≡ root_of r
      → starts_before d.start_key c.start_key ≡ true
      → Holds nodes parent (branch l j d r)
      → IsLinked nodes i c j r
      → IsLinked nodes i c parent (branch l j d r)
  right_below nodes i j parent c d l r m w a b same e (n, at_j, hl, hr) (prev, at_prev, held) =
      rw (last-right c.start_key parent j l r d e, ins-right i j c d l r e)
        (
          prev,
          at_prev,
          (
            n,
            rw (m, w, same) at_j,
            Holds-frame nodes _ j l (unlinked nodes (last c.start_key j r) i _ _ (indices l) b a)
                hl,
            held,
          ),
        )

  left_below :
      (nodes : ℕ → Option (Node V)) (i j parent : ℕ) (c d : Cell V) (l r : Shape V)
      → (last c.start_key j l == j) ≡ false
      → (i == j) ≡ false
      → IsAbsent (indices r) i
      → IsAbsent (indices r) (last c.start_key j l)
      → root_of (ins i c l) ≡ root_of l
      → starts_before d.start_key c.start_key ≡ false
      → Holds nodes parent (branch l j d r)
      → IsLinked nodes i c j l
      → IsLinked nodes i c parent (branch l j d r)
  left_below nodes i j parent c d l r m w a b same e (n, at_j, hl, hr) (prev, at_prev, held) =
      rw (last-left c.start_key parent j l r d e, ins-left i j c d l r e)
        (
          prev,
          at_prev,
          (
            n,
            rw (m, w, same) at_j,
            held,
            Holds-frame nodes _ j r (unlinked nodes (last c.start_key j l) i _ _ (indices r) b a)
                hr,
          ),
        )

  abbrev pub IsGrown : (ℕ → Option (Node V)) → ℕ → Cell V → ℕ → Shape V → Type 0
  IsGrown nodes i c parent leaf = Unit
  IsGrown nodes i c parent (branch l j d r) = IsLinked nodes i c parent (branch l j d r)

  grown_right :
      (nodes : ℕ → Option (Node V)) (i j parent : ℕ) (c d : Cell V) (l r : Shape V)
      → (i == nil) ≡ false
      → (i == j) ≡ false
      → IsAbsent (indices l) i
      → AreApart (branch l j d r)
      → starts_before d.start_key c.start_key ≡ true
      → Holds nodes parent (branch l j d r)
      → IsGrown nodes i c j r
      → IsLinked nodes i c parent (branch l j d r)
  grown_right nodes i j parent c d l leaf v w a apart e h g =
      right_leaf nodes i j parent c d l v w a apart.0 e h
  grown_right nodes i j parent c d l (branch rl k f rr) v w a (al, ar, lr, rl_apart, bl, br) e h g =
      right_below nodes i j parent c d l (branch rl k f rr)
        (==_false_sym j _ (last-branch-All (λ x. (j == x) ≡ false) c.start_key j k f rl rr ar)) w a
        (last-branch-All (IsAbsent (indices l)) c.start_key j k f rl rr rl_apart)
        (root_of-ins i k k c f rl rr) e h g

  grown_left :
      (nodes : ℕ → Option (Node V)) (i j parent : ℕ) (c d : Cell V) (l r : Shape V)
      → (i == nil) ≡ false
      → (i == j) ≡ false
      → IsAbsent (indices r) i
      → AreApart (branch l j d r)
      → starts_before d.start_key c.start_key ≡ false
      → Holds nodes parent (branch l j d r)
      → IsGrown nodes i c j l
      → IsLinked nodes i c parent (branch l j d r)
  grown_left nodes i j parent c d leaf r v w a apart e h g =
      left_leaf nodes i j parent c d r v w a apart.1 e h
  grown_left nodes i j parent c d (branch ll k f lr) r v w a (al, ar, lr_apart, rl, bl, br) e h g =
      left_below nodes i j parent c d (branch ll k f lr) r
        (==_false_sym j _ (last-branch-All (λ x. (j == x) ≡ false) c.start_key j k f ll lr al)) w a
        (last-branch-All (IsAbsent (indices r)) c.start_key j k f ll lr lr_apart)
        (root_of-ins i k k c f ll lr) e h g

  pub grown :
      (nodes : ℕ → Option (Node V)) (i parent : ℕ) (c : Cell V) (s : Shape V)
      → (i == nil) ≡ false
      → IsAbsent (indices s) i
      → AreApart s
      → Holds nodes parent s
      → IsGrown nodes i c parent s
  grown nodes i parent c leaf v a apart h = tt
  grown nodes i parent c (branch l j d r) v a (al, ar, lr, rl, bl, br) (n, at_j, hl, hr) =
      let absent : ℕ → Type 0 = λ x. (i == x) ≡ false in
      let here = All-right absent (indices l) (j ∷ indices r) a in
      let left = All-left absent (indices l) (j ∷ indices r) a in
      let below_left = grown nodes i j c l v left bl hl in
      let below_right = grown nodes i j c r v here.1 br hr in
      elim (Bool-cases (starts_before d.start_key c.start_key)) [
        | inl e ↦
            grown_right nodes i j parent c d l r v here.0 left (al, ar, lr, rl, bl, br) e
              (n, at_j, hl, hr) below_right
        | inr e ↦
            grown_left nodes i j parent c d l r v here.0 here.1 (al, ar, lr, rl, bl, br) e
              (n, at_j, hl, hr) below_left
      ]
