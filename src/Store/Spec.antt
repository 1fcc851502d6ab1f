-- ===== src/Store/Spec.antt =====
-- What the trait of crates/control-core/src/store/traits.rs promises, without rows or their order:
-- a store is four maps from ids to aggregates and one from networks to policies.
use oxiscale.Prelude.{
  ℕ, ◌==◌, ◌≡◌, String, Bool, true, false, not, if◌then◌else◌, Option, none, some, List, [], ◌∷◌,
  ok,
}
use oxiscale.Store.Types.{NetworkId, Network, User, Node, PreAuthKey}
use oxiscale.Store.Chrono.{Chrono}
use oxiscale.Store.Table.{find, has_key}
use oxiscale.Store.Table.Laws.{keep_if, IsUnique}
use oxiscale.Store.Calls.{
  Call, Answer, Reply, list_networks, upsert_network, list_users, upsert_user, list_nodes, get_node,
  upsert_node, delete_node, list_preauth_keys, upsert_preauth_key, consume_preauth_key, get_policy,
  set_policy,
}

pub record View : Type 0 where
  pub networks : ℕ → Option Network
  pub users : ℕ → Option User
  pub nodes : ℕ → Option Node
  pub preauth_keys : ℕ → Option PreAuthKey
  pub policies : NetworkId → Option String

abbrev pub nothing : View
nothing = record {
  networks = λ _. none;
  users = λ _. none;
  nodes = λ _. none;
  preauth_keys = λ _. none;
  policies = λ _. none;
}

abbrev pub update {ℓ} : {A : Type ℓ} → ℕ → Option A → (ℕ → Option A) → ℕ → Option A
update k o f j = if k == j then o else f j

-- A list of rows that stands for the part of a map that passes a test.
abbrev pub Lists {ℓ} : {A : Type ℓ} → (A → ℕ) → (A → Bool) → (ℕ → Option A) → List A → Type ℓ
Lists key p f l = IsUnique key l × ((k : ℕ) → find (has_key key k) l ≡ keep_if p (f k))

module _ (c : Chrono) where
  open c use {DateTime, le, parse_from_rfc3339}

  -- An instant at which a timestamp has passed; one that does not parse has always passed.
  abbrev pub has_passed : DateTime → Option DateTime → Bool
  has_passed now none = true
  has_passed now (some t) = le t now

  abbrev pub text_passed : DateTime → Option String → Bool
  text_passed now none = false
  text_passed now (some ts) = has_passed now (parse_from_rfc3339 ts)

  abbrev pub is_expired : DateTime → PreAuthKey → Bool
  is_expired now key = text_passed now key.expires_at

  -- A key is valid if it has not expired, and is reusable or was not used.
  abbrev pub is_valid : DateTime → PreAuthKey → Bool
  is_valid now key =
      if is_expired now key then false else if key.reusable then true else not key.used

  abbrev pub is_valid? : DateTime → Option PreAuthKey → Bool
  is_valid? now none = false
  is_valid? now (some key) = is_valid now key

  -- A valid single-use key is used from then on.
  abbrev pub use_up : DateTime → Option PreAuthKey → Option PreAuthKey
  use_up now none = none
  use_up now (some key) = some (
      if is_valid now key
      then record key { used = if key.reusable then key.used else true }
      else key)

  abbrev pub advance : Call DateTime → View → View
  advance (upsert_network net) v = record v { networks = update net.id (some net) v.networks }
  advance (upsert_user user) v = record v { users = update user.id (some user) v.users }
  advance (upsert_node node) v = record v { nodes = update node.id (some node) v.nodes }
  advance (delete_node id) v = record v { nodes = update id none v.nodes }
  advance (upsert_preauth_key key) v = record v {
    preauth_keys = update key.id (some key) v.preauth_keys;
  }
  advance (consume_preauth_key now id) v = record v {
    preauth_keys = update id (use_up now (v.preauth_keys id)) v.preauth_keys;
  }
  advance (set_policy network policy) v = record v {
    policies = update network (some policy) v.policies;
  }
  advance _ v = v

  abbrev pub advance_all : List (Call DateTime) → View → View
  advance_all [] v = v
  advance_all (call ∷ rest) v = advance_all rest (advance call v)

  -- The answer that a call gets where the maps are `v`.
  abbrev pub IsAnswer : Call DateTime → View → Answer → Type 0
  IsAnswer list_networks v a =
      (l : List Network) × (a ≡ ok (Reply.networks l)) × Lists (λ n. n.id) (λ _. true) v.networks l
  IsAnswer (list_users network) v a =
      (l : List User) × (a ≡ ok (Reply.users l))
      × Lists (λ u. u.id) (λ u. u.network_id == network) v.users l
  IsAnswer (list_nodes network) v a =
      (l : List Node) × (a ≡ ok (Reply.nodes l))
      × Lists (λ n. n.id) (λ n. n.network_id == network) v.nodes l
  IsAnswer (list_preauth_keys network) v a =
      (l : List PreAuthKey) × (a ≡ ok (Reply.preauth_keys l))
      × Lists (λ k. k.id) (λ k. k.network_id == network) v.preauth_keys l
  IsAnswer (get_node id) v a = a ≡ ok (Reply.node (v.nodes id))
  IsAnswer (get_policy network) v a = a ≡ ok (Reply.policy (v.policies network))
  IsAnswer (consume_preauth_key now id) v a =
      a ≡ ok (Reply.consumed (is_valid? now (v.preauth_keys id)))
  IsAnswer _ v a = a ≡ ok Reply.unit
