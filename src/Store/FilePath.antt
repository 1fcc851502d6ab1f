-- ===== src/Store/FilePath.antt =====
-- `std::path::Path` as far as crates/control-core/src/store/file.rs uses it: the file name of a
-- path, in bytes, its extension and `with_extension`. A path that ends in `..` has no file name.
use oxiscale.Prelude.{
  ℕ, ◌==◌, ◌≡◌, refl, ap, Bool, true, false, ◌&&◌, if◌then◌else◌, Option, none, some, List, [], ◌∷◌,
  ◌++◌, arith, inl, inr, Option-cases,
}

pub record FilePath : Type 0 where
  pub parent : List ℕ
  pub file_name : Option (List ℕ)

abbrev pub bytes_eq : List ℕ → List ℕ → Bool
bytes_eq [] [] = true
bytes_eq (a ∷ x) (b ∷ y) = (a == b) && bytes_eq x y
bytes_eq _ _ = false

pub bytes_eq_refl : (x : List ℕ) → bytes_eq x x ≡ true
bytes_eq_refl [] = refl
bytes_eq_refl (a ∷ x) = ground (arith, bytes_eq_refl x)

pub bytes_eq_sound : (x y : List ℕ) → bytes_eq x y ≡ true → x ≡ y
bytes_eq_sound [] [] e = refl
bytes_eq_sound [] (b ∷ y) e = cc
bytes_eq_sound (a ∷ x) [] e = cc
bytes_eq_sound (a ∷ x) (b ∷ y) e = ground (arith, bytes_eq_sound x y)

abbrev pub name_eq : Option (List ℕ) → Option (List ℕ) → Bool
name_eq none none = true
name_eq (some x) (some y) = bytes_eq x y
name_eq _ _ = false

abbrev pub path_eq : FilePath → FilePath → Bool
path_eq p q = bytes_eq p.parent q.parent && name_eq p.file_name q.file_name

name_eq_refl : (x : Option (List ℕ)) → name_eq x x ≡ true
name_eq_refl none = refl
name_eq_refl (some x) = bytes_eq_refl x

name_eq_sound : (x y : Option (List ℕ)) → name_eq x y ≡ true → x ≡ y
name_eq_sound none none e = refl
name_eq_sound none (some y) e = cc
name_eq_sound (some x) none e = cc
name_eq_sound (some x) (some y) e = ap some (bytes_eq_sound x y e)

pub path_eq_refl : (p : FilePath) → path_eq p p ≡ true
path_eq_refl p = ground (arith, bytes_eq_refl p.parent, name_eq_refl p.file_name)

pub path_eq_sound : (p q : FilePath) → path_eq p q ≡ true → p ≡ q
path_eq_sound p q e =
    ground (arith, bytes_eq_sound p.parent q.parent, name_eq_sound p.file_name q.file_name)

-- What stands before and after the last dot.
unfoldable pub split_last_dot : List ℕ → Option (List ℕ × List ℕ)
split_last_dot [] = none
split_last_dot (c ∷ rest) = elim (split_last_dot rest) [
  | some (before, after) ↦ some (c ∷ before, after)
  | none ↦ if c == b'.' then some ([], rest) else none
]

-- A name whose only dot comes first is all stem.
abbrev pub parts : List ℕ → Option (List ℕ × List ℕ) → List ℕ × Option (List ℕ)
parts name none = (name, none)
parts name (some ([], after)) = (name, none)
parts name (some (c ∷ before, after)) = (c ∷ before, some after)

abbrev pub stem_and_extension : List ℕ → List ℕ × Option (List ℕ)
stem_and_extension name = parts name (split_last_dot name)

unfoldable pub extension : FilePath → Option (List ℕ)
extension p = elim p.file_name [ none ↦ none | some name ↦ (stem_and_extension name).1 ]

unfoldable pub with_extension : FilePath → List ℕ → FilePath
with_extension p ext = elim p.file_name [
  | none ↦ p
  | some name ↦ record p { file_name = some ((stem_and_extension name).0 ++ b'.' ∷ ext) }
]

split_last_dot-append :
    (stem ext : List ℕ)
    → split_last_dot ext ≡ none
    → split_last_dot (stem ++ b'.' ∷ ext) ≡ some (stem, ext)
unfolding split_last_dot
split_last_dot-append [] ext h = rw h
split_last_dot-append (c ∷ stem) ext h = rw (split_last_dot-append stem ext h)

extension-parts :
    (name old ext : List ℕ) (q : Option (List ℕ × List ℕ))
    → split_last_dot ext ≡ none
    → (parts name q).1 ≡ some old
    → (stem_and_extension ((parts name q).0 ++ b'.' ∷ ext)).1 ≡ some ext
extension-parts name old ext none h e = cc
extension-parts name old ext (some ([], after)) h e = cc
extension-parts name old ext (some (c ∷ before, after)) h e =
    rw (split_last_dot-append (c ∷ before) ext h)

-- Where a path has an extension, `with_extension` gives it the new one.
pub extension-with_extension :
    (p : FilePath) (old ext : List ℕ)
    → split_last_dot ext ≡ none
    → extension p ≡ some old
    → extension (with_extension p ext) ≡ some ext
unfolding extension with_extension
extension-with_extension p old ext h e = elim (Option-cases p.file_name) [
  | inl missing ↦ cc (rw (missing, extension) at e)
  | inr (name, named) ↦
      rw (named, with_extension)
        (extension-parts name old ext (split_last_dot name) h (rw (named, extension) at e))
]
