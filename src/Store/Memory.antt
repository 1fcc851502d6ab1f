-- ===== src/Store/Memory.antt =====
-- crates/control-core/src/store/memory.rs: the volatile backend. Each operation holds the lock from
-- its first access to its last, so it is one step on the document. What `Utc::now()` returns is an
-- argument.

pub mod Scenarios
pub mod Trace
pub mod Consume
pub mod Unique
pub mod Refines
pub mod Expiry
pub mod Reusable
mod Tests
use oxiscale.Prelude.{
  ◌==◌, String, Bool, true, false, not, if◌then◌else◌, Option, none, some, List, [], Result, ok,
}
use oxiscale.Store.Chrono.{Chrono}
use oxiscale.Store.Types.{
  NetworkId, NodeId, PreAuthKeyId, Network, User, Node, PreAuthKey, StoreError,
}
use oxiscale.Store.Document.{StoreDocument, get, insert}
use oxiscale.Store.Table.{find, write_first, filter, upsert}

pub record MemoryStore : Type 0 where
  pub inner : StoreDocument

unfoldable pub new : MemoryStore
new = record {
  inner = record {
    version = 1;
    networks = [];
    users = [];
    nodes = [];
    preauth_keys = [];
    policies = [];
  };
}

unfoldable pub default : MemoryStore
unfolding new
default = new

unfoldable pub snapshot : MemoryStore → StoreDocument
snapshot s = s.inner

unfoldable pub replace : StoreDocument → MemoryStore → MemoryStore
replace doc s = record { inner = doc }

-- What a writing method returns, and the store that it leaves.
abbrev pub Update : Type 0 → Type 0
Update A = MemoryStore → Result StoreError A × MemoryStore

unfoldable pub list_networks : MemoryStore → Result StoreError (List Network)
list_networks s = ok s.inner.networks

unfoldable pub upsert_network : Network → Update Unit
upsert_network net s =
    let doc = s.inner in
    (ok tt, record { inner = record doc { networks = upsert (λ n. n.id) net doc.networks } })

unfoldable pub list_users : NetworkId → MemoryStore → Result StoreError (List User)
list_users network s = ok (filter (λ u. u.network_id == network) s.inner.users)

unfoldable pub upsert_user : User → Update Unit
upsert_user user s =
    let doc = s.inner in
    (ok tt, record { inner = record doc { users = upsert (λ u. u.id) user doc.users } })

unfoldable pub list_nodes : NetworkId → MemoryStore → Result StoreError (List Node)
list_nodes network s = ok (filter (λ n. n.network_id == network) s.inner.nodes)

unfoldable pub get_node : NodeId → MemoryStore → Result StoreError (Option Node)
get_node id s = ok (find (λ n. n.id == id) s.inner.nodes)

unfoldable pub upsert_node : Node → Update Unit
upsert_node node s =
    let doc = s.inner in
    (ok tt, record { inner = record doc { nodes = upsert (λ n. n.id) node doc.nodes } })

unfoldable pub delete_node : NodeId → Update Unit
delete_node id s =
    let doc = s.inner in
    (ok tt, record { inner = record doc { nodes = filter (λ n. not (n.id == id)) doc.nodes } })

unfoldable pub list_preauth_keys : NetworkId → MemoryStore → Result StoreError (List PreAuthKey)
list_preauth_keys network s = ok (filter (λ k. k.network_id == network) s.inner.preauth_keys)

unfoldable pub upsert_preauth_key : PreAuthKey → Update Unit
upsert_preauth_key key s =
    let doc = s.inner in
    (
      ok tt,
      record { inner = record doc { preauth_keys = upsert (λ k. k.id) key doc.preauth_keys } },
    )

module _ (c : Chrono) where
  open c use {DateTime, le, parse_from_rfc3339}

  expired_at : DateTime → Option DateTime → Bool
  expired_at now (some expiry) = le expiry now
  expired_at now none = true

  -- A key with no `expires_at` never expires, and one that does not parse is expired.
  unfoldable pub preauth_key_expired : DateTime → PreAuthKey → Bool
  unfolding expired_at
  preauth_key_expired now key = elim key.expires_at [
    | none ↦ false
    | some ts ↦ expired_at now (parse_from_rfc3339 ts)
  ]

  consume_found : DateTime → PreAuthKeyId → PreAuthKey → Update Bool
  consume_found now id key s =
      let doc = s.inner in
      if preauth_key_expired now key
      then (ok false, s)
      else if key.reusable
      then (ok true, s)
      else if key.used
      then (ok false, s)
      else (
        ok true,
        record {
          inner = record doc {
            preauth_keys =
                write_first (λ k. k.id == id) (record key { used = true }) doc.preauth_keys;
          };
        },
      )

  unfoldable pub consume_preauth_key : DateTime → PreAuthKeyId → Update Bool
  unfolding consume_found
  consume_preauth_key now id s = elim (find (λ k. k.id == id) s.inner.preauth_keys) [
    | none ↦ (ok false, s)
    | some key ↦ consume_found now id key s
  ]

unfoldable pub get_policy : NetworkId → MemoryStore → Result StoreError (Option String)
get_policy network s = ok (get network s.inner.policies)

unfoldable pub set_policy : NetworkId → String → Update Unit
set_policy network policy s =
    let doc = s.inner in
    (ok tt, record { inner = record doc { policies = insert network policy doc.policies } })
