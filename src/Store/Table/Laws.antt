-- ===== src/Store/Table/Laws.antt =====
-- Looking a key up after an `upsert` or a filter, and the invariant that keys are unique.
use oxiscale.Prelude.{
  ℕ, ◌==◌, ◌≡◌, refl, Bool, false, if◌then◌else◌, Option, none, some, List, [], ◌∷◌, ◌++◌, arith,
  inl, inr, Option-cases, Bool-cases, ==_iff, ◌∙◌, not,
}
use oxiscale.Store.Table.{find, write_first, filter, has_key, upsert}

abbrev pub keep_if {ℓ} : {A : Type ℓ} → (A → Bool) → Option A → Option A
keep_if p none = none
keep_if p (some a) = if p a then some a else none

module _ {ℓ} {A : Type ℓ} (key : A → ℕ) where
  find-append :
      (k : ℕ) (xs : List A) (x : A)
      → find (has_key key k) xs ≡ none
      → find (has_key key k) (xs ++ (x ∷ [])) ≡ (if key x == k then some x else none)
  unfolding find
  find-append k [] x h = refl
  find-append k (y ∷ xs) x h = ground (arith, find-append k xs x)

  find-append_ne :
      (k : ℕ) (xs : List A) (x : A)
      → (key x == k) ≡ false
      → find (has_key key k) (xs ++ (x ∷ [])) ≡ find (has_key key k) xs
  unfolding find
  find-append_ne k [] x h = ground arith
  find-append_ne k (y ∷ xs) x h = ground (arith, find-append_ne k xs x)

  find-write_first :
      (k : ℕ) (x : A) (xs : List A) {old : A}
      → find (has_key key (key x)) xs ≡ some old
      → find (has_key key k) (write_first (has_key key (key x)) x xs)
        ≡ (if key x == k then some x else find (has_key key k) xs)
  unfolding find write_first
  find-write_first k x [] h = cc
  find-write_first k x (y ∷ xs) {old} h = ground (arith, find-write_first k x xs {old = old})

  pub find-upsert :
      (k : ℕ) (x : A) (xs : List A)
      → find (has_key key k) (upsert key x xs)
        ≡ (if key x == k then some x else find (has_key key k) xs)
  unfolding upsert
  find-upsert k x xs = elim (Option-cases (find (has_key key (key x)) xs)) [
    | inl e ↦ rw (e, upsert) (ground (arith, find-append k xs x, find-append_ne k xs x))
    | inr (old, e) ↦ rw (e, upsert) (find-write_first k x xs e)
  ]

  -- No two rows have the same key.
  abbrev pub IsUnique : List A → Type ℓ
  IsUnique [] = Unit
  IsUnique (x ∷ xs) = (find (has_key key (key x)) xs ≡ none) × IsUnique xs

  IsUnique-write_first :
      (x : A) (xs : List A) {old : A}
      → find (has_key key (key x)) xs ≡ some old
      → IsUnique xs
      → IsUnique (write_first (has_key key (key x)) x xs)
  unfolding write_first find
  IsUnique-write_first x [] e u = u
  IsUnique-write_first x (y ∷ xs) {old} e (fresh, u) = elim (Bool-cases (key y == key x)) [
    | inl same ↦ rw same (rw ((==_iff (key y) (key x)).0 same) at fresh, u)
    | inr differs ↦
        let found : find (has_key key (key x)) xs ≡ some old = rw differs at e in
        rw differs (
          find-write_first (key y) x xs found ∙ ground (arith, fresh),
          IsUnique-write_first x xs found u,
        )
  ]

  IsUnique-append :
      (x : A) (xs : List A)
      → find (has_key key (key x)) xs ≡ none
      → IsUnique xs
      → IsUnique (xs ++ (x ∷ []))
  unfolding find
  IsUnique-append x [] e u = (refl, tt)
  IsUnique-append x (y ∷ xs) e (fresh, u) =
      (ground (arith, find-append (key y) xs x), IsUnique-append x xs (ground arith) u)

  pub upsert-IsUnique : (x : A) (xs : List A) → IsUnique xs → IsUnique (upsert key x xs)
  unfolding upsert
  upsert-IsUnique x xs u = elim (Option-cases (find (has_key key (key x)) xs)) [
    | inl e ↦ rw (e, upsert) (IsUnique-append x xs e u)
    | inr (old, e) ↦ rw (e, upsert) (IsUnique-write_first x xs e u)
  ]

  absent_filter :
      (k : ℕ) (p : A → Bool) (xs : List A)
      → find (has_key key k) xs ≡ none
      → find (has_key key k) (filter p xs) ≡ none
  unfolding find filter
  absent_filter k p [] h = refl
  absent_filter k p (x ∷ xs) h = ground (arith, absent_filter k p xs)

  pub filter-IsUnique : (p : A → Bool) (xs : List A) → IsUnique xs → IsUnique (filter p xs)
  unfolding filter
  filter-IsUnique p [] u = tt
  filter-IsUnique p (x ∷ xs) (fresh, u) = elim (Bool-cases (p x)) [
    | inl e ↦ rw e (absent_filter (key x) p xs fresh, filter-IsUnique p xs u)
    | inr e ↦ rw e (filter-IsUnique p xs u)
  ]

  -- With unique keys, a filter keeps the row of a key exactly if that row passes.
  pub find-filter :
      (k : ℕ) (p : A → Bool) (xs : List A)
      → IsUnique xs
      → find (has_key key k) (filter p xs) ≡ keep_if p (find (has_key key k) xs)
  unfolding find filter
  find-filter k p [] u = refl
  find-filter k p (x ∷ xs) (fresh, u) = elim (Bool-cases (key x == k)) [
    | inl e ↦
        let none_left : find (has_key key k) xs ≡ none = rw ((==_iff (key x) k).0 e) at fresh in
        ground (arith, absent_filter k p xs none_left)
    | inr e ↦ ground (arith, find-filter k p xs u)
  ]

  -- `retain(|y| y.id != k)` removes the key, and leaves every other key as it is.
  pub find-retain :
      (k d : ℕ) (xs : List A)
      → find (has_key key k) (filter (λ y. not (key y == d)) xs)
        ≡ (if d == k then none else find (has_key key k) xs)
  unfolding find filter
  find-retain k d [] = ground arith
  find-retain k d (x ∷ xs) = ground (arith, find-retain k d xs)

  -- The row that is found has the key.
  pub key-find : (k : ℕ) (xs : List A) {x : A} → find (has_key key k) xs ≡ some x → key x ≡ k
  unfolding find
  key-find k [] h = cc
  key-find k (y ∷ xs) {x} h = ground (arith, key-find k xs {x = x})

  -- A write through the reference to the row of `k` changes that row, and no other.
  pub find-write :
      (k j : ℕ) (x : A) (xs : List A) {old : A}
      → key x ≡ k
      → find (has_key key k) xs ≡ some old
      → find (has_key key j) (write_first (has_key key k) x xs)
        ≡ (if k == j then some x else find (has_key key j) xs)
  find-write k j x xs e h = rw (← e) (find-write_first j x xs (rw (← e) at h))

  pub write-IsUnique :
      (k : ℕ) (x : A) (xs : List A) {old : A}
      → key x ≡ k
      → find (has_key key k) xs ≡ some old
      → IsUnique xs
      → IsUnique (write_first (has_key key k) x xs)
  write-IsUnique k x xs e h u = rw (← e) (IsUnique-write_first x xs (rw (← e) at h) u)
