-- ===== src/Oracle/Interval/Overlap.antt =====
-- The search of src/interval/interval_tree.rs finds all ranges that overlap, and no others.
use little_key_value_db.Prelude.{
  ℕ, zero, suc, ◌<◌, ◌≡◌, ◌≢◌, refl, sym, ap, ◌∙◌, inl, inr, lt, gt, Bool, true, false, List, [],
  ◌∷◌, ◌++◌, done, ◌>>=◌, if◌then◌else◌, All, append-nil, append_assoc, arith, Bool-cases,
}
use little_key_value_db.Storage.Bytes.{is_less, Key, bytes_cmp}
use little_key_value_db.Storage.Bytes.Order.{bytes_lt_trans, eq_of_bytes_cmp}
use little_key_value_db.RbTree.{RbTree, nil}
use little_key_value_db.RbTree.Shape.{
  AreAscending, Cell, Shape, leaf, branch, root_of, inorder, height, Holds, IsTree, height-size,
}
use little_key_value_db.Oracle.{does_range_overlap}
use little_key_value_db.Oracle.Interval.{
  RangeValue, push_overlap, collect_overlapping_nodes, get_overlap,
}

module _ {V : Type 0} (first last : Key) where
  abbrev push : Cell V → List (RangeValue V) → List (RangeValue V)
  push c acc = push_overlap first last c.start_key c.end_key c.value acc

  -- The ranges of the cells that overlap, in their order.
  abbrev pub overlapping : List (Cell V) → List (RangeValue V)
  overlapping [] = []
  overlapping (c ∷ cs) =
      if does_range_overlap first last c.start_key c.end_key
      then record { start_key = c.start_key; end_key = c.end_key; value = c.value } ∷ overlapping cs
      else overlapping cs

  -- The search along a list: it stops at the first range that starts after the end.
  sweep : List (RangeValue V) → List (Cell V) → List (RangeValue V) × Bool
  sweep acc [] = (acc, false)
  sweep acc (c ∷ cs) = elim (is_less last c.start_key) [
    | true ↦ (push c acc, true)
    | false ↦ sweep (push c acc) cs
  ]

  sweep_past :
      (acc : List (RangeValue V)) (c : Cell V) (cs : List (Cell V))
      → is_less last c.start_key ≡ true
      → sweep acc (c ∷ cs) ≡ (push c acc, true)
  unfolding sweep
  sweep_past acc c cs past = rw (past, sweep)

  sweep_on :
      (acc : List (RangeValue V)) (c : Cell V) (cs : List (Cell V))
      → is_less last c.start_key ≡ false
      → sweep acc (c ∷ cs) ≡ sweep (push c acc) cs
  unfolding sweep
  sweep_on acc c cs before = rw (before, sweep)

  -- The rest of the search, from its state.
  abbrev resume : List (Cell V) → List (RangeValue V) × Bool → List (RangeValue V) × Bool
  resume ys p = elim p.1 [ true ↦ (p.0, true) | false ↦ sweep p.0 ys ]

  sweep-append :
      (acc : List (RangeValue V)) (xs ys : List (Cell V))
      → sweep acc (xs ++ ys) ≡ resume ys (sweep acc xs)
  unfolding sweep
  sweep-append acc [] ys = refl
  sweep-append acc (c ∷ cs) ys = elim (Bool-cases (is_less last c.start_key)) [
    | inl past ↦ sweep_past acc c (cs ++ ys) past ∙ sym (ap (resume ys) (sweep_past acc c cs past))
    | inr before ↦
        sweep_on acc c (cs ++ ys) before
        ∙ sweep-append (push c acc) cs ys
        ∙ sym (ap (resume ys) (sweep_on acc c cs before))
  ]

  collect-sweep :
      (t : RbTree V) (parent : ℕ) (s : Shape V) (fuel : ℕ) (acc : List (RangeValue V))
      → Holds t.nodes parent s
      → height s < fuel
      → collect_overlapping_nodes fuel first last (root_of s) t acc ≡ done (sweep acc (inorder s))
  unfolding collect_overlapping_nodes sweep
  collect-sweep t parent s zero acc h l = absurd (omega arith)
  collect-sweep t parent leaf (suc fuel) acc h l = refl
  collect-sweep t parent (branch a i c b) (suc fuel) acc h l =
      let left = collect-sweep t i a fuel acc h.2 (omega arith) in
      rw
        (
          h.0,
          collect_overlapping_nodes,
          h.1,
          ◌>>=◌,
          left,
          sweep-append acc (inorder a) (c ∷ inorder b),
        )
        (elim (Bool-cases (sweep acc (inorder a)).1) [
          | inl stopped ↦ rw (resume, stopped)
          | inr on ↦
              rw (resume, on)
                (elim (Bool-cases (is_less last c.start_key)) [
                  | inl past ↦ rw (past, sweep_past (sweep acc (inorder a)).0 c (inorder b) past)
                  | inr before ↦
                      rw
                        (
                          before,
                          collect_overlapping_nodes,
                          sweep_on (sweep acc (inorder a)).0 c (inorder b) before,
                        )
                        (collect-sweep t i b fuel (push c (sweep acc (inorder a)).0) h.3
                          (omega arith))
                ])
        ])

  -- No range overlaps that starts after the end.
  beyond :
      (c d : Cell V)
      → bytes_cmp first last ≢ gt
      → is_less last c.start_key ≡ true
      → bytes_cmp c.start_key d.start_key ≢ gt
      → does_range_overlap first last d.start_key d.end_key ≡ false
  unfolding does_range_overlap
  beyond c d q p a =
      let past : bytes_cmp last d.start_key ≡ lt = ground (
        arith,
        bytes_lt_trans last c.start_key d.start_key,
        eq_of_bytes_cmp c.start_key d.start_key,
      ) in
      let start : bytes_cmp first d.start_key ≡ lt =
        ground (arith, bytes_lt_trans first last d.start_key, eq_of_bytes_cmp first last) in
      rw (start, past, does_range_overlap)

  none_beyond :
      (c : Cell V) (cs : List (Cell V))
      → bytes_cmp first last ≢ gt
      → is_less last c.start_key ≡ true
      → All (λ d. bytes_cmp c.start_key d.start_key ≢ gt) cs
      → overlapping cs ≡ []
  none_beyond c [] q p a = refl
  none_beyond c (d ∷ cs) q p a = rw (beyond c d q p a.0) (none_beyond c cs q p a.1)

  push-append :
      (c : Cell V) (acc : List (RangeValue V)) (cs : List (Cell V))
      → push c acc ++ overlapping cs ≡ acc ++ overlapping (c ∷ cs)
  push-append c acc cs = elim (Bool-cases (does_range_overlap first last c.start_key c.end_key)) [
    | inl hit ↦ rw hit (append_assoc acc _ _)
    | inr miss ↦ rw miss
  ]

  sweep-overlapping :
      (acc : List (RangeValue V)) (cs : List (Cell V))
      → bytes_cmp first last ≢ gt
      → AreAscending cs
      → (sweep acc cs).0 ≡ acc ++ overlapping cs
  unfolding sweep
  sweep-overlapping acc [] q a = sym (append-nil acc)
  sweep-overlapping acc (c ∷ cs) q a = elim (Bool-cases (is_less last c.start_key)) [
    | inl past ↦
        rw (past, sweep)
          (sym (append-nil (push c acc))
            ∙ ap (λ r. push c acc ++ r) (sym (none_beyond c cs q past a.0))
            ∙ push-append c acc cs)
    | inr before ↦
        rw (before, sweep) (sweep-overlapping (push c acc) cs q a.1 ∙ push-append c acc cs)
  ]

  -- On a tree of ranges that is ordered by their starts, the search for a range that does not end
  -- before it starts returns all ranges of the tree that overlap with it, and no others, in their order.
  pub get_overlap_lem :
      (t : RbTree V) (s : Shape V)
      → IsTree t s
      → AreAscending (inorder s)
      → bytes_cmp first last ≢ gt
      → get_overlap first last t ≡ done (overlapping (inorder s))
  unfolding get_overlap
  get_overlap_lem t s h a q =
      ap (λ r. collect_overlapping_nodes (suc t.len) first last r t [] >>= λ f. done f.0) h.root
      ∙ ap (λ o. o >>= λ f. done f.0)
          (collect-sweep t nil s (suc t.len) [] h.holds (omega (arith, height-size s, h.full)))
      ∙ ap done (sweep-overlapping [] (inorder s) q a)
