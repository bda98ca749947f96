-- ===== src/Prelude/Vectors.antt =====
-- The operations of `Vec` of Rust's standard library on lists: an index out of bounds panics.
use Prim.Native.Nat.{ℕ, zero, suc}
use mathlib.Core.List.{List, [], ◌∷◌}
use little_key_value_db.Prelude.Fallible.{Outcome, done, panicked, ◌>>=◌}

module _ {ℓ} {A : Type ℓ} where
  -- `v[i]`
  abbrev pub vec_at : ℕ → List A → Outcome A
  vec_at i [] = panicked
  vec_at zero (x ∷ xs) = done x
  vec_at (suc i) (x ∷ xs) = vec_at i xs

  -- `v[i] = x`
  abbrev pub vec_set : ℕ → A → List A → Outcome (List A)
  vec_set i y [] = panicked
  vec_set zero y (x ∷ xs) = done (y ∷ xs)
  vec_set (suc i) y (x ∷ xs) = vec_set i y xs >>= λ rest. done (x ∷ rest)

  -- `v.insert(i, x)`, where `i` may be the length
  abbrev pub vec_insert : ℕ → A → List A → Outcome (List A)
  vec_insert zero y xs = done (y ∷ xs)
  vec_insert (suc i) y [] = panicked
  vec_insert (suc i) y (x ∷ xs) = vec_insert i y xs >>= λ rest. done (x ∷ rest)

  -- `v.remove(i)`, with the removed element
  abbrev pub vec_remove : ℕ → List A → Outcome (A × List A)
  vec_remove i [] = panicked
  vec_remove zero (x ∷ xs) = done (x, xs)
  vec_remove (suc i) (x ∷ xs) = vec_remove i xs >>= λ removed. done (removed.0, x ∷ removed.1)

-- `i - 1` on indices, which has to be one
abbrev pub previous : ℕ → Outcome ℕ
previous zero = panicked
previous (suc i) = done i
