-- ===== src/Latch/Node/Internal/Steal.antt =====
-- What an internal node of src/latch_manager/latch_interval_btree.rs gets from a sibling.
use little_key_value_db.Prelude.{
  ℕ, suc, ◌≤◌, ◌/◌, ◌≡◌, refl, sym, ap, ◌∙◌, true, List, [], ◌∷◌, ◌++◌, done, length, length-append,
  append_assoc, ltb→lt, arith,
}
use little_key_value_db.Storage.Bytes.{Key}
use little_key_value_db.Latch.Node.{
  InternalNode, Family, is_spare, IsBranch, keys_across, edges_across,
}
use little_key_value_db.Latch.Node.Vectors.{
  vec_at-middle, vec_set-middle, vec_remove-last, vec_remove-first,
}
use little_key_value_db.Latch.Node.Internal.{steal_from_left_sibling, steal_from_right_sibling}

-- A node that has a key to spare does not underflow without one.
is_spare→le :
    (keys : List Key) (order m : ℕ)
    → is_spare keys order ≡ true
    → length keys ≡ suc m
    → order / 2 ≤ m
unfolding is_spare
is_spare→le keys order m spare e = omega (arith, ltb→lt (order / 2) (length keys) spare, e)

is_spare→positive :
    (keys : List Key) (order : ℕ) → is_spare keys order ≡ true → (m : ℕ) × (length keys ≡ suc m)
unfolding is_spare
is_spare→positive [] order spare = absurd (omega (arith, ltb→lt (order / 2) 0 spare))
is_spare→positive (k ∷ ks) order spare = (length ks, refl)

-- The siblings are well formed, the thief has a key more, and the other one does not underflow.
abbrev pub IsBalanced : Family InternalNode → Family InternalNode → Type 0
IsBalanced f f' =
    IsBranch f'.current
    × IsBranch f'.sibling
    × (length f'.current.keys ≡ suc (length f.current.keys))
    × (f.sibling.order / 2 ≤ length f'.sibling.keys)

-- Where the left sibling has a key to spare, stealing from it keeps the keys and the edges of the two
-- siblings in their order, with the new key of the parent between them, and changes no other key of the
-- parent; the node has a key and an edge more, and the sibling does not underflow. Both siblings have
-- one more edge than keys.
pub steal_from_left_sibling_lem :
    (f : Family InternalNode) (before after : List Key) (k : Key)
    → is_spare f.sibling.keys f.sibling.order ≡ true
    → IsBranch f.current
    → IsBranch f.sibling
    → f.parent.keys ≡ before ++ (k ∷ after)
    → (f' : Family InternalNode) × (k' : Key) × (steal_from_left_sibling (suc (length before)) f
        ≡ done (true, f'))
      × (f'.parent ≡ record f.parent { keys = before ++ (k' ∷ after) })
      × (keys_across f'.sibling k' f'.current ≡ keys_across f.sibling k f.current)
      × (edges_across f'.sibling f'.current ≡ edges_across f.sibling f.current)
      × IsBalanced f f'
unfolding steal_from_left_sibling
steal_from_left_sibling_lem f before after k spare current sibling parent =
    let (m, size) = is_spare→positive f.sibling.keys f.sibling.order spare in
    let (keys, k', keys_eq, keys_len, keys_run) = vec_remove-last m f.sibling.keys size in
    let (edges, e', edges_eq, edges_len, edges_run) =
      vec_remove-last (suc m) f.sibling.edges (sibling ∙ ap suc size) in
    (
      record {
        current = record f.current { keys = k ∷ f.current.keys; edges = e' ∷ f.current.edges };
        sibling = record f.sibling { keys = keys; edges = edges };
        parent = record f.parent { keys = before ++ (k' ∷ after) };
      },
      k',
      rw
          (
            spare,
            sibling,
            size,
            parent,
            vec_at-middle before after k,
            edges_run,
            keys_run,
            vec_set-middle before after k k',
          )
          refl,
      refl,
      rw (keys_eq) (sym (append_assoc keys (k' ∷ []) (k ∷ f.current.keys))),
      rw (edges_eq) (sym (append_assoc edges (e' ∷ []) f.current.edges)),
      (
        ap suc current,
        edges_len ∙ ap suc (sym keys_len),
        refl,
        is_spare→le f.sibling.keys f.sibling.order (length keys) spare
            (size ∙ ap suc (sym keys_len)),
      ),
    )

-- Where the right sibling has a key to spare, stealing from it keeps the keys and the edges of the two
-- siblings in their order, with the new key of the parent between them, and changes no other key of the
-- parent; the node has a key and an edge more, and the sibling does not underflow. Both siblings have
-- one more edge than keys.
pub steal_from_right_sibling_lem :
    (f : Family InternalNode) (before after : List Key) (k : Key)
    → is_spare f.sibling.keys f.sibling.order ≡ true
    → IsBranch f.current
    → IsBranch f.sibling
    → f.parent.keys ≡ before ++ (k ∷ after)
    → (f' : Family InternalNode) × (k' : Key) × (steal_from_right_sibling (length before) f
        ≡ done (true, f'))
      × (f'.parent ≡ record f.parent { keys = before ++ (k' ∷ after) })
      × (keys_across f'.current k' f'.sibling ≡ keys_across f.current k f.sibling)
      × (edges_across f'.current f'.sibling ≡ edges_across f.current f.sibling)
      × IsBalanced f f'
unfolding steal_from_right_sibling
steal_from_right_sibling_lem f before after k spare current sibling parent =
    let (m, size) = is_spare→positive f.sibling.keys f.sibling.order spare in
    let (k', keys, keys_eq, keys_run) = vec_remove-first m f.sibling.keys size in
    let (e', edges, edges_eq, edges_run) =
      vec_remove-first (suc m) f.sibling.edges (sibling ∙ ap suc size) in
    let keys_len : length f.sibling.keys ≡ suc (length keys) = ap length keys_eq in
    let edges_len : length f.sibling.edges ≡ suc (length edges) = ap length edges_eq in
    (
      record {
        current = record f.current {
          keys = f.current.keys ++ (k ∷ []);
          edges = f.current.edges ++ (e' ∷ []);
        };
        sibling = record f.sibling { keys = keys; edges = edges };
        parent = record f.parent { keys = before ++ (k' ∷ after) };
      },
      k',
      rw
          (
            spare,
            parent,
            vec_at-middle before after k,
            edges_run,
            keys_run,
            vec_set-middle before after k k',
          )
          refl,
      refl,
      rw (keys_eq) (append_assoc f.current.keys (k ∷ []) (k' ∷ keys)),
      rw (edges_eq) (append_assoc f.current.edges (e' ∷ []) edges),
      (
        omega (
          arith,
          length-append f.current.edges (e' ∷ []),
          length-append f.current.keys (k ∷ []),
          current,
        ),
        omega (arith, edges_len, keys_len, sibling),
        omega (arith, length-append f.current.keys (k ∷ [])),
        is_spare→le f.sibling.keys f.sibling.order (length keys) spare keys_len,
      ),
    )
