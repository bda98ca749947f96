-- ===== src/Prelude/Fallible.antt =====
-- The result of a call that may panic, or that may not return.
use mathlib.Core.Option.{Option, none, some}

-- `panicked` is a panic of the thread, `unfinished` a call that has not returned: a loop whose fuel
-- ran out, or an `await` that nothing completes.
pub data Outcome {ℓ} (A : Type ℓ) : Type ℓ where
  done : A → Outcome A
  panicked : Outcome A
  unfinished : Outcome A

infixl 5 ◌>>=◌
abbrev pub ◌>>=◌ {ℓ κ} : {A : Type ℓ} {B : Type κ} → Outcome A → (A → Outcome B) → Outcome B
done a >>= f = f a
panicked >>= f = panicked
unfinished >>= f = unfinished

-- `unwrap()`
abbrev pub unwrap {ℓ} : {A : Type ℓ} → Option A → Outcome A
unwrap (some a) = done a
unwrap none = panicked
