-- ===== src/RbTree/Insert/Order.antt =====
-- The place of a new range of src/llrb/llrb.rs among the others: the search down the tree is the search
-- along the list of its ranges.
use little_key_value_db.Prelude.{
  inl, inr, ℕ, ◌≡◌, ◌≢◌, refl, ap, ◌∙◌, sym, subst, gt, true, false, List, [], ◌∷◌, ◌++◌, All,
  All-left, All-right, Bool-cases, arith,
}
use little_key_value_db.Storage.Bytes.{Key, bytes_cmp}
use little_key_value_db.Storage.Bytes.Order.{eq_of_bytes_cmp, bytes_lt_trans, bytes_lt_of_gt}
use little_key_value_db.RbTree.Shape.{AreAscending, Cell, Shape, leaf, branch, inorder}
use little_key_value_db.RbTree.Insert.Walk.{starts_before, ins, ins-right, ins-left}

-- A key that is not after one before the third is before the third.
before_trans :
    (a b c : Key) → bytes_cmp a b ≢ gt → starts_before b c ≡ true → starts_before a c ≡ true
unfolding starts_before
before_trans a b c n e = ground (arith, bytes_lt_trans a b c, eq_of_bytes_cmp a b)

not_after_trans : (a b c : Key) → bytes_cmp a b ≢ gt → bytes_cmp b c ≢ gt → bytes_cmp a c ≢ gt
not_after_trans a b c m n =
    ground (arith, bytes_lt_trans a b c, eq_of_bytes_cmp a b, eq_of_bytes_cmp b c)

not_after : (d c : Key) → starts_before d c ≡ true → bytes_cmp d c ≢ gt
unfolding starts_before
not_after d c e = ground arith

not_before : (d c : Key) → starts_before d c ≡ false → bytes_cmp c d ≢ gt
unfolding starts_before
not_before d c e = ground (arith, bytes_lt_of_gt c d)

module _ {V : Type 0} where
  -- A cell in a list in the order of the starts, before equal ones.
  unfoldable pub insert_sorted : Cell V → List (Cell V) → List (Cell V)
  insert_sorted c [] = c ∷ []
  insert_sorted c (d ∷ ds) = elim (starts_before d.start_key c.start_key) [
    | true ↦ d ∷ insert_sorted c ds
    | false ↦ c ∷ d ∷ ds
  ]

  sorted-on :
      (c d : Cell V) (ds : List (Cell V))
      → starts_before d.start_key c.start_key ≡ true
      → insert_sorted c (d ∷ ds) ≡ d ∷ insert_sorted c ds
  unfolding insert_sorted
  sorted-on c d ds e = rw (insert_sorted, e) refl

  sorted-here :
      (c d : Cell V) (ds : List (Cell V))
      → starts_before d.start_key c.start_key ≡ false
      → insert_sorted c (d ∷ ds) ≡ c ∷ d ∷ ds
  unfolding insert_sorted
  sorted-here c d ds e = rw (insert_sorted, e) refl

  -- Past the cells before one that starts before the new cell.
  sorted-past :
      (c d : Cell V) (xs ys : List (Cell V))
      → AreAscending (xs ++ (d ∷ ys))
      → starts_before d.start_key c.start_key ≡ true
      → insert_sorted c (xs ++ (d ∷ ys)) ≡ xs ++ (d ∷ insert_sorted c ys)
  sorted-past c d [] ys a e = sorted-on c d ys e
  sorted-past c d (x ∷ xs) ys (first, rest) e =
      sorted-on c x (xs ++ (d ∷ ys)) (
        before_trans x.start_key d.start_key c.start_key
          (All-right (λ y. bytes_cmp x.start_key y.start_key ≢ gt) xs (d ∷ ys) first).0 e)
      ∙ ap (λ l. x ∷ l) (sorted-past c d xs ys rest e)

  -- Among the cells before one that does not start before the new cell.
  sorted-among :
      (c d : Cell V) (xs ys : List (Cell V))
      → starts_before d.start_key c.start_key ≡ false
      → insert_sorted c (xs ++ (d ∷ ys)) ≡ insert_sorted c xs ++ (d ∷ ys)
  unfolding insert_sorted
  sorted-among c d [] ys e = sorted-here c d ys e
  sorted-among c d (x ∷ xs) ys e = elim (Bool-cases (starts_before x.start_key c.start_key)) [
    | inl on ↦
        sorted-on c x (xs ++ (d ∷ ys)) on
        ∙ ap (λ l. x ∷ l) (sorted-among c d xs ys e)
        ∙ ap (λ l. l ++ (d ∷ ys)) (sym (sorted-on c x xs on))
    | inr here ↦
        sorted-here c x (xs ++ (d ∷ ys)) here
        ∙ ap (λ l. l ++ (d ∷ ys)) (sym (sorted-here c x xs here))
  ]

  AreAscending-left : (xs ys : List (Cell V)) → AreAscending (xs ++ ys) → AreAscending xs
  AreAscending-left [] ys a = tt
  AreAscending-left (x ∷ xs) ys (first, rest) = (
    All-left (λ y. bytes_cmp x.start_key y.start_key ≢ gt) xs ys first,
    AreAscending-left xs ys rest,
  )

  AreAscending-right : (xs ys : List (Cell V)) → AreAscending (xs ++ ys) → AreAscending ys
  AreAscending-right [] ys a = a
  AreAscending-right (x ∷ xs) ys (first, rest) = AreAscending-right xs ys rest

  ins-sorted :
      (i : ℕ) (c : Cell V) (s : Shape V)
      → AreAscending (inorder s)
      → inorder (ins i c s) ≡ insert_sorted c (inorder s)
  unfolding ins insert_sorted
  ins-sorted i c leaf a = refl
  ins-sorted i c (branch l j d r) a = elim (Bool-cases (starts_before d.start_key c.start_key)) [
    | inl e ↦
        ap inorder (ins-right i j c d l r e)
        ∙ ap (λ x. inorder l ++ (d ∷ x))
            (ins-sorted i c r (AreAscending-right (inorder l) (d ∷ inorder r) a).1)
        ∙ sym (sorted-past c d (inorder l) (inorder r) a e)
    | inr e ↦
        ap inorder (ins-left i j c d l r e)
        ∙ ap (λ x. x ++ (d ∷ inorder r))
            (ins-sorted i c l (AreAscending-left (inorder l) (d ∷ inorder r) a))
        ∙ sym (sorted-among c d (inorder l) (inorder r) e)
  ]

  -- What is not after the new cell and the others is not after the cells with the new one.
  below_all :
      (x c : Cell V) (ds : List (Cell V))
      → bytes_cmp x.start_key c.start_key ≢ gt
      → All (λ d. bytes_cmp x.start_key d.start_key ≢ gt) ds
      → All (λ d. bytes_cmp x.start_key d.start_key ≢ gt) (insert_sorted c ds)
  unfolding insert_sorted
  below_all x c [] n a = (n, tt)
  below_all x c (d ∷ ds) n (m, ms) = elim (Bool-cases (starts_before d.start_key c.start_key)) [
    | inl e ↦ rw (sorted-on c d ds e) (m, below_all x c ds n ms)
    | inr e ↦ rw (sorted-here c d ds e) (n, (m, ms))
  ]

  above :
      (c d : Cell V) (ds : List (Cell V))
      → bytes_cmp c.start_key d.start_key ≢ gt
      → All (λ x. bytes_cmp d.start_key x.start_key ≢ gt) ds
      → All (λ x. bytes_cmp c.start_key x.start_key ≢ gt) ds
  above c d [] n a = tt
  above c d (x ∷ ds) n (m, ms) =
      (not_after_trans c.start_key d.start_key x.start_key n m, above c d ds n ms)

  insert_sorted-AreAscending :
      (c : Cell V) (ds : List (Cell V)) → AreAscending ds → AreAscending (insert_sorted c ds)
  unfolding insert_sorted
  insert_sorted-AreAscending c [] a = (tt, tt)
  insert_sorted-AreAscending c (d ∷ ds) (first, rest) =
      elim (Bool-cases (starts_before d.start_key c.start_key)) [
        | inl e ↦ rw (sorted-on c d ds e) (
          below_all d c ds (not_after d.start_key c.start_key e) first,
          insert_sorted-AreAscending c ds rest,
        )
        | inr e ↦
            let n = not_before d.start_key c.start_key e in
            rw (sorted-here c d ds e) ((n, above c d ds n first), (first, rest))
      ]

  -- The tree with the new cell lists the cells with the new one in the order of the starts, and is
  -- ordered again.
  pub ins_lem :
      (i : ℕ) (c : Cell V) (s : Shape V)
      → AreAscending (inorder s)
      → (inorder (ins i c s) ≡ insert_sorted c (inorder s)) × AreAscending (inorder (ins i c s))
  ins_lem i c s a = (
    ins-sorted i c s a,
    subst AreAscending (sym (ins-sorted i c s a)) (insert_sorted-AreAscending c (inorder s) a),
  )
