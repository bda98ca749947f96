-- ===== src/Latch/Node/Vectors.antt =====
-- What the operations of src/latch_manager/latch_interval_btree.rs on the vectors of a node do, at the
-- place after a prefix.
use little_key_value_db.Prelude.{
  ℕ, zero, suc, ◌≡◌, refl, sym, ap, List, [], ◌∷◌, ◌++◌, done, ◌>>=◌, length, vec_at, vec_set,
  vec_insert, vec_remove, arith,
}

module _ {ℓ} {A : Type ℓ} where
  pub vec_at-middle : (xs ys : List A) (y : A) → vec_at (length xs) (xs ++ (y ∷ ys)) ≡ done y
  vec_at-middle [] ys y = refl
  vec_at-middle (x ∷ xs) ys y = vec_at-middle xs ys y

  pub vec_set-middle :
      (xs ys : List A) (y z : A) → vec_set (length xs) z (xs ++ (y ∷ ys)) ≡ done (xs ++ (z ∷ ys))
  vec_set-middle [] ys y z = refl
  vec_set-middle (x ∷ xs) ys y z =
      ap (λ o. o >>= λ rest. done (x ∷ rest)) (vec_set-middle xs ys y z)

  pub vec_remove-middle :
      (xs ys : List A) (y : A) → vec_remove (length xs) (xs ++ (y ∷ ys)) ≡ done (y, xs ++ ys)
  vec_remove-middle [] ys y = refl
  vec_remove-middle (x ∷ xs) ys y =
      ap (λ o. o >>= λ removed. done (removed.0, x ∷ removed.1)) (vec_remove-middle xs ys y)

  pub vec_insert-middle :
      (xs ys : List A) (y : A) → vec_insert (length xs) y (xs ++ ys) ≡ done (xs ++ (y ∷ ys))
  vec_insert-middle [] ys y = refl
  vec_insert-middle (x ∷ xs) ys y =
      ap (λ o. o >>= λ rest. done (x ∷ rest)) (vec_insert-middle xs ys y)

  -- The last element, and those in front of it.
  pub vec_remove-last :
      (n : ℕ) (xs : List A)
      → length xs ≡ suc n
      → (front : List A) × (x : A) × (xs ≡ front ++ (x ∷ []))
        × (length front ≡ n)
        × (vec_remove n xs ≡ done (x, front))
  vec_remove-last n [] e = absurd (omega (arith, e))
  vec_remove-last zero (x ∷ []) e = ([], x, refl, refl, refl)
  vec_remove-last zero (x ∷ y ∷ xs) e = absurd (omega (arith, e))
  vec_remove-last (suc n) (x ∷ xs) e =
      let (front, y, eq, len, run) = vec_remove-last n xs (omega (arith, e)) in
      (
        x ∷ front,
        y,
        ap (λ l. x ∷ l) eq,
        ap suc len,
        ap (λ o. o >>= λ removed. done (removed.0, x ∷ removed.1)) run,
      )

  pub vec_remove-first :
      (n : ℕ) (xs : List A)
      → length xs ≡ suc n
      → (x : A) × (rest : List A) × (xs ≡ x ∷ rest) × (vec_remove 0 xs ≡ done (x, rest))
  vec_remove-first n [] e = absurd (omega (arith, e))
  vec_remove-first n (x ∷ xs) e = (x, xs, refl, refl)

  -- The second element after a prefix of a known length.
  pub vec_remove-second :
      (n : ℕ) (xs ys : List A) (x y : A)
      → length xs ≡ n
      → vec_remove (suc n) (xs ++ (x ∷ y ∷ ys)) ≡ done (y, xs ++ (x ∷ ys))
  vec_remove-second n [] ys x y e = rw (sym e) refl
  vec_remove-second zero (x₀ ∷ xs) ys x y e = absurd (omega (arith, e))
  vec_remove-second (suc n) (x₀ ∷ xs) ys x y e =
      ap (λ o. o >>= λ removed. done (removed.0, x₀ ∷ removed.1))
        (vec_remove-second n xs ys x y (omega (arith, e)))
