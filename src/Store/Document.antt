-- ===== src/Store/Document.antt =====
-- crates/control-core/src/store/document.rs: the whole persisted state.
-- `HashMap<NetworkId, String>` is an association list, of which the code sees `get` and `insert`.
use oxiscale.Prelude.{
  ℕ, ◌==◌, String, Option, none, some, List, [], ◌∷◌, if◌then◌else◌, ◌≡◌, refl, arith,
}
use oxiscale.Store.Types.{Network, User, Node, PreAuthKey}

abbrev pub HashMap {ℓ} : Type ℓ → Type ℓ
HashMap V = List (ℕ × V)

module _ {ℓ} {V : Type ℓ} where
  unfoldable pub get : ℕ → HashMap V → Option V
  get k [] = none
  get k ((j, v) ∷ m) = if j == k then some v else get k m

  unfoldable pub insert : ℕ → V → HashMap V → HashMap V
  insert k v [] = (k, v) ∷ []
  insert k v ((j, w) ∷ m) = if j == k then (k, v) ∷ m else (j, w) ∷ insert k v m

  pub get-insert :
      (k j : ℕ) (v : V) (m : HashMap V)
      → get j (insert k v m) ≡ (if k == j then some v else get j m)
  unfolding get insert
  get-insert k j v [] = refl
  get-insert k j v ((i, w) ∷ m) = ground (arith, get-insert k j v m)

pub record StoreDocument : Type 0 where
  pub version : ℕ
  pub networks : List Network
  pub users : List User
  pub nodes : List Node
  pub preauth_keys : List PreAuthKey
  pub policies : HashMap String
