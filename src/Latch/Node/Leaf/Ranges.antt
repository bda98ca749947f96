-- ===== src/Latch/Node/Leaf/Ranges.antt =====
-- How a leaf of src/latch_manager/latch_interval_btree.rs holds the ranges that are latched.
use little_key_value_db.Prelude.{
  ℕ, zero, suc, ◌+◌, ◌≡◌, ◌≢◌, refl, sym, ap, subst, true, List, [], ◌∷◌, ◌++◌, none, some, Outcome,
  done, panicked, unfinished, ◌>>=◌, length, length-append, vec_at, vec_set, vec_insert, vec_remove,
  arith,
}
use little_key_value_db.Storage.Bytes.{Key}
use little_key_value_db.LockTable.Guard.{Range}
use little_key_value_db.Latch.Node.{LeafNode, insert_index}
use little_key_value_db.Latch.Node.Vectors.{vec_insert-middle, vec_remove-middle}
use little_key_value_db.Latch.Node.Leaf.Split.{IsPaired}
use little_key_value_db.Latch.Node.Leaf.{
  LatchKeyGuard, acquired, not_acquired, find_key_idx, insert_range, remove_at, remove_key,
}
use little_key_value_db.Latch.Node.Leaf.Places.{
  IsAscending, IsBelow, IsAbove, insert_index-splits, insert-IsAscending, find_key_idx-middle,
  split_at,
}

-- The leaf with a range more, between those before it and those after it.
pub record Insertion (range : Range) (n : LeafNode) : Type 0 where
  pub before : List Key
  pub after : List Key
  pub ends_before : List Key
  pub ends_after : List Key
  pub keys : n.start_keys ≡ before ++ after
  pub ends : n.end_keys ≡ ends_before ++ ends_after
  pub same : length ends_before ≡ length before
  pub below : IsBelow range.start_key before
  pub above : IsAbove range.start_key after

module _ {range : Range} {n : LeafNode} (i : Insertion range n) where
  abbrev pub inserted : LeafNode
  inserted = record n {
    start_keys = i.before ++ (range.start_key ∷ i.after);
    end_keys = i.ends_before ++ (range.end_key ∷ i.ends_after);
  }

insert_range-at :
    (range : Range) (n : LeafNode) (i : Insertion range n)
    → find_key_idx range.start_key n.start_keys ≡ none
    → insert_index range.start_key n.start_keys ≡ length i.before
    → insert_range range n ≡ done (inserted i, acquired)
unfolding insert_range
insert_range-at range n i absent idx =
    let keys_run : vec_insert (length i.before) range.start_key n.start_keys
        ≡ done (i.before ++ (range.start_key ∷ i.after)) =
      rw (i.keys) (vec_insert-middle i.before i.after range.start_key) in
    let ends_run : vec_insert (length i.before) range.end_key n.end_keys
        ≡ done (i.ends_before ++ (range.end_key ∷ i.ends_after)) =
      rw (i.ends, sym i.same) (vec_insert-middle i.ends_before i.ends_after range.end_key) in
    rw (absent, idx, keys_run, ends_run, insert_range) refl

insert_range-inserts :
    (range : Range) (n : LeafNode)
    → IsPaired n
    → IsAscending n.start_keys
    → find_key_idx range.start_key n.start_keys ≡ none
    → (i : Insertion range n) × (insert_range range n ≡ done (inserted i, acquired))
insert_range-inserts range n paired asc absent =
    let (before, after, keys, idx, below, above) =
      insert_index-splits range.start_key n.start_keys asc absent in
    let (ends_before, ends_after, ends, same) =
      split_at (length before) n.end_keys
        (omega (arith, paired, ap length keys, length-append before after)) in
    let i : Insertion range n = record {
      before = before;
      after = after;
      ends_before = ends_before;
      ends_after = ends_after;
      keys = keys;
      ends = ends;
      same = same;
      below = below;
      above = above;
    } in
    (i, insert_range-at range n i absent idx)

found :
    {range : Range} {n : LeafNode} (i : Insertion range n)
    → find_key_idx range.start_key (inserted i).start_keys ≡ some (length i.before)
found {range = range} i = find_key_idx-middle range.start_key i.before i.after i.below

-- Where the ranges of a leaf ascend and none of them has the start key, `insert_range` latches the
-- range: the leaf keeps its other ranges in their order, the range stands between the smaller ones and
-- the greater ones, and the start keys ascend. The leaf has as many end keys as start keys.
pub insert_range_lem :
    (range : Range) (n : LeafNode)
    → IsPaired n
    → IsAscending n.start_keys
    → find_key_idx range.start_key n.start_keys ≡ none
    → (i : Insertion range n) × (insert_range range n ≡ done (inserted i, acquired))
      × IsPaired (inserted i)
      × IsAscending (inserted i).start_keys
insert_range_lem range n paired asc absent =
    let (i, run) = insert_range-inserts range n paired asc absent in
    let keys = i.keys in
    (
      i,
      run,
      omega (
        arith,
        i.same,
        paired,
        ap length i.keys,
        ap length i.ends,
        length-append i.before i.after,
        length-append i.ends_before i.ends_after,
        length-append i.before (range.start_key ∷ i.after),
        length-append i.ends_before (range.end_key ∷ i.ends_after),
      ),
      insert-IsAscending range.start_key i.before i.after (subst IsAscending i.keys asc) i.below
          i.above,
    )

-- A latch that is released leaves the leaf as it was: if the ranges of a leaf ascend and none of them
-- has the start key, then `insert_range` and `remove_key` after it return and give the leaf back. The
-- leaf has as many end keys as start keys.
pub remove_key-insert_range :
    (range : Range) (n : LeafNode)
    → IsPaired n
    → IsAscending n.start_keys
    → find_key_idx range.start_key n.start_keys ≡ none
    → (n' : LeafNode) × (insert_range range n ≡ done (n', acquired))
      × (remove_key range.start_key n' ≡ done (n, true))
unfolding remove_key remove_at
remove_key-insert_range range n paired asc absent =
    let (i, run) = insert_range-inserts range n paired asc absent in
    let keys_run : vec_remove (length i.before) (inserted i).start_keys
        ≡ done (range.start_key, n.start_keys) =
      rw (i.keys) (vec_remove-middle i.before i.after range.start_key) in
    let ends_run : vec_remove (length i.before) (inserted i).end_keys
        ≡ done (range.end_key, n.end_keys) =
      rw (i.ends, sym i.same) (vec_remove-middle i.ends_before i.ends_after range.end_key) in
    (inserted i, run, rw (found i, keys_run, ends_run, remove_key) refl)

not_acquired_excludes :
    (o : Outcome (List ℕ)) (n m : LeafNode)
    → ◌>>=◌ {B = LeafNode × LatchKeyGuard} o (λ w. done (record n { waiters = w }, not_acquired))
      ≢ done (m, acquired)
not_acquired_excludes (done a) n m = ground arith
not_acquired_excludes panicked n m = ground arith
not_acquired_excludes unfinished n m = ground arith

counted_excludes :
    (o : Outcome ℕ) (set : ℕ → Outcome (List ℕ)) (n m : LeafNode)
    → ◌>>=◌ {B = LeafNode × LatchKeyGuard} o (λ s.
      ◌>>=◌ {B = LeafNode × LatchKeyGuard}
        (set s)
        (λ w. done (record n { waiters = w }, not_acquired)))
      ≢ done (m, acquired)
counted_excludes (done s) set n m = not_acquired_excludes (set s) n m
counted_excludes panicked set n m = ground arith
counted_excludes unfinished set n m = ground arith

present_excludes :
    (range : Range) (n m : LeafNode) (idx : ℕ)
    → find_key_idx range.start_key n.start_keys ≡ some idx
    → insert_range range n ≢ done (m, acquired)
unfolding insert_range
present_excludes range n m idx present =
    rw (present, insert_range)
      (counted_excludes (vec_at idx n.waiters) (λ s. vec_set idx (s + 1) n.waiters) n m)

-- Two latches on the same start key exclude each other: where the ranges of a leaf ascend and none has
-- the start key, `insert_range` latches a range, and does not latch another one with that start key
-- then. The leaf has as many end keys as start keys.
pub insert_range-insert_range :
    (range other : Range) (n m : LeafNode)
    → IsPaired n
    → IsAscending n.start_keys
    → find_key_idx range.start_key n.start_keys ≡ none
    → other.start_key ≡ range.start_key
    → (n' : LeafNode) × (insert_range range n ≡ done (n', acquired))
      × (insert_range other n' ≢ done (m, acquired))
insert_range-insert_range range other n m paired asc absent same =
    let (i, run) = insert_range-inserts range n paired asc absent in
    (inserted i, run, present_excludes other (inserted i) m (length i.before) (rw (same) (found i)))

-- In a leaf with the one list of waiters that it is made with, a range whose start key is the first of
-- the leaf's is refused and its sender counted, the ranges unchanged, and one whose start key is any other of the leaf's makes
-- `insert_range` panic.
pub insert_range-present :
    (range : Range) (n : LeafNode) (waiters idx : ℕ)
    → n.waiters ≡ waiters ∷ []
    → find_key_idx range.start_key n.start_keys ≡ some idx
    → insert_range range n ≡ elim idx [
      | zero ↦ done (record n { waiters = (waiters + 1) ∷ [] }, not_acquired)
      | suc later ↦ panicked
    ]
unfolding insert_range
insert_range-present range n waiters zero one present = rw (present, insert_range, one) refl
insert_range-present range n waiters (suc later) one present = rw (present, insert_range, one) refl
