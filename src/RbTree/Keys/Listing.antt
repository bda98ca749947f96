-- ===== src/RbTree/Keys/Listing.antt =====
-- The listing of the keys of src/llrb/llrb.rs is that of the tree that the nodes stand for.
use little_key_value_db.Prelude.{
  ℕ, zero, suc, false, ◌<◌, ◌≡◌, refl, sym, ap, ◌∙◌, List, [], ◌∷◌, ◌++◌, map, Option, none, some,
  Outcome, done, panicked, unfinished, ◌>>=◌, if◌then◌else◌, ◌==◌, arith,
}
use little_key_value_db.Storage.Bytes.{Key}
use little_key_value_db.RbTree.{RbTree, Node, nil, at}
use little_key_value_db.RbTree.Shape.{
  Cell, Shape, leaf, branch, root_of, linked, inorder, height, Holds, IsTree, height-size,
}
use little_key_value_db.RbTree.Keys.{left, right, inorder_keys_internal, to_inorder_keys}

bind_assoc :
    {A B C : Type 0}
    → (o : Outcome A) (f : A → Outcome B) (g : B → Outcome C)
    → ((o >>= f) >>= g) ≡ (o >>= λ x. f x >>= g)
bind_assoc (done a) f g = refl
bind_assoc panicked f g = refl
bind_assoc unfinished f g = refl

module _ {V : Type 0} where
  abbrev pub key_of : Cell V → Key
  key_of c = c.start_key

  map-inorder : (xs ys : List (Cell V)) → map key_of xs ++ map key_of ys ≡ map key_of (xs ++ ys)
  map-inorder [] ys = refl
  map-inorder (x ∷ xs) ys = ap (λ l. key_of x ∷ l) (map-inorder xs ys)

  abbrev link : ℕ → RbTree V → Outcome (Option (Node V))
  link i t = if i == nil then done none else (do n ← at i t; done (some n))

  listed :
      (fuel parent : ℕ) (s : Shape V) (t : RbTree V)
      → Holds t.nodes parent s
      → height s < fuel
      → (link (root_of s) t >>= λ l. inorder_keys_internal fuel l t) ≡ done (map key_of (inorder s))
  unfolding inorder_keys_internal left right
  listed zero parent s t h f = absurd (omega (arith, f))
  listed (suc fuel) parent leaf t h f = refl
  listed (suc fuel) parent (branch l i c r) t (n, e, hl, hr) f =
      let below_left = listed fuel i l t hl (omega (arith, f)) in
      let below_right = listed fuel i r t hr (omega (arith, f)) in
      let after : List Key → Outcome (List Key) = λ keys. link (root_of r) t >>= λ x.
      inorder_keys_internal fuel x t >>= λ right_keys. done (keys ++ (c.start_key ∷ right_keys)) in
      rw (n, e, ◌>>=◌)
        (sym (bind_assoc (link (root_of l) t) (λ x. inorder_keys_internal fuel x t) after)
          ∙ ap (λ o. o >>= after) below_left
          ∙ sym (
              bind_assoc (link (root_of r) t) (λ x. inorder_keys_internal fuel x t)
                (λ keys. done (map key_of (inorder l) ++ (c.start_key ∷ keys))))
          ∙ ap (λ o. o >>= λ keys. done (map key_of (inorder l) ++ (c.start_key ∷ keys)))
              below_right
          ∙ ap done (map-inorder (inorder l) (c ∷ inorder r)))

  from_node :
      (i : ℕ) (n : Node V) (t : RbTree V)
      → (i == nil) ≡ false
      → t.nodes i ≡ some n
      → (at i t >>= λ node. inorder_keys_internal (suc t.len) (some node) t)
        ≡ (link i t >>= λ l. inorder_keys_internal (suc t.len) l t)
  from_node i n t v e = rw (v, e, ◌>>=◌) refl

  -- The listing of a tree that is not empty always returns, with the start keys of the tree from left
  -- to right.
  pub to_inorder_keys_lem :
      (t : RbTree V) (l r : Shape V) (i : ℕ) (c : Cell V)
      → IsTree t (branch l i c r)
      → to_inorder_keys t ≡ done (map key_of (inorder (branch l i c r)))
  unfolding to_inorder_keys
  to_inorder_keys_lem t l r i c h =
      ap (λ root. at root t >>= λ node. inorder_keys_internal (suc t.len) (some node) t) h.root
      ∙ from_node i (linked c (root_of l) (root_of r) nil) t h.holds.0 h.holds.1
      ∙ listed (suc t.len) nil (branch l i c r) t h.holds
          (omega (arith, height-size (branch l i c r), h.full))
