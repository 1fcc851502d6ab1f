-- ===== src/Store/Table.antt =====
-- What the backends do with a `Vec` of aggregates: `iter().find`, a write through `iter_mut().find`,
-- `push`, `retain` and `iter().filter`. Rows are compared by a key, the aggregate's id.
pub mod Laws
use oxiscale.Prelude.{ℕ, ◌==◌, Bool, if◌then◌else◌, Option, none, some, List, [], ◌∷◌, ◌++◌}

module _ {ℓ} {A : Type ℓ} where
  -- `iter().find(p)`
  unfoldable pub find : (A → Bool) → List A → Option A
  find p [] = none
  find p (x ∷ xs) = if p x then some x else find p xs

  -- `*iter_mut().find(p) = y`: a write through the reference to the first match.
  unfoldable pub write_first : (A → Bool) → A → List A → List A
  write_first p y [] = []
  write_first p y (x ∷ xs) = if p x then y ∷ xs else x ∷ write_first p y xs

  -- `retain(p)`, and `iter().filter(p).cloned().collect()`
  unfoldable pub filter : (A → Bool) → List A → List A
  filter p [] = []
  filter p (x ∷ xs) = let rest = filter p xs in if p x then x ∷ rest else rest

  module _ (key : A → ℕ) where
    abbrev pub has_key : ℕ → A → Bool
    has_key k x = key x == k

    -- Replace the first row with the key of `x`, or push `x`.
    unfoldable pub upsert : A → List A → List A
    upsert x xs = elim (find (has_key (key x)) xs) [
      | some _ ↦ write_first (has_key (key x)) x xs
      | none ↦ xs ++ (x ∷ [])
    ]
