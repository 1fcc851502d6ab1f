-- ===== src/Store/Memory/Unique.antt =====
-- The well-formedness of crates/control-core/src/store/memory.rs: the ids in a table differ.
use oxiscale.Prelude.{List, [], ◌∷◌, inl, inr, Option-cases, Result, if_both, Bool, true}
use oxiscale.Store.Types.{PreAuthKey, Network, User, Node, PreAuthKeyId, StoreError}
use oxiscale.Store.Document.{StoreDocument}
use oxiscale.Store.Chrono.{Chrono}
use oxiscale.Store.Table.Laws.{IsUnique, upsert-IsUnique, filter-IsUnique, key-find, write-IsUnique}
use oxiscale.Store.Calls.{
  Call, upsert_network, upsert_user, upsert_node, delete_node, upsert_preauth_key,
  consume_preauth_key,
}
use oxiscale.Store.Memory
use oxiscale.Store.Memory.{MemoryStore, preauth_key_expired}
use oxiscale.Store.Memory.Trace.{perform, run}
use oxiscale.Store.Memory.Consume.{key_of}

pub record IsWellFormed (d : StoreDocument) : Type 0 where
  pub networks : IsUnique (λ (n : Network). n.id) d.networks
  pub users : IsUnique (λ (u : User). u.id) d.users
  pub nodes : IsUnique (λ (n : Node). n.id) d.nodes
  pub preauth_keys : IsUnique (λ (k : PreAuthKey). k.id) d.preauth_keys

-- A new store is well formed.
pub new-IsWellFormed : IsWellFormed Memory.new.inner
unfolding Memory.new
new-IsWellFormed = record { networks = tt; users = tt; nodes = tt; preauth_keys = tt }

module _ (c : Chrono) where
  open c use {DateTime}

  consume-IsWellFormed :
      (now : DateTime) (id : PreAuthKeyId) (s : MemoryStore)
      → IsWellFormed s.inner
      → IsWellFormed (Memory.consume_preauth_key c now id s).1.inner
  unfolding Memory.consume_preauth_key
  consume-IsWellFormed now id s w =
      let keeps : Result StoreError Bool × MemoryStore → Type 0 = λ r. IsWellFormed r.1.inner in
      elim (Option-cases (key_of id s)) [
        | inl e ↦ rw (e, Memory.consume_preauth_key) w
        | inr (key, e) ↦
            rw (e, Memory.consume_preauth_key)
              (if_both keeps (preauth_key_expired c now key) w (
                if_both keeps key.reusable w (
                  if_both keeps key.used w (record {
                    networks = w.networks;
                    users = w.users;
                    nodes = w.nodes;
                    preauth_keys =
                        write-IsUnique (λ (k : PreAuthKey). k.id) id (record key { used = true })
                          s.inner.preauth_keys
                          (key-find (λ (k : PreAuthKey). k.id) id s.inner.preauth_keys e) e
                          w.preauth_keys;
                  }))))
      ]

  -- Every call keeps a store well formed.
  pub perform-IsWellFormed :
      (call : Call DateTime) (s : MemoryStore)
      → IsWellFormed s.inner
      → IsWellFormed (perform c call s).1.inner
  unfolding perform Memory.upsert_network Memory.upsert_user Memory.upsert_node Memory.delete_node
      Memory.upsert_preauth_key Memory.set_policy
  perform-IsWellFormed (upsert_network net) s w = record {
    networks = upsert-IsUnique (λ (n : Network). n.id) net _ w.networks;
    users = w.users;
    nodes = w.nodes;
    preauth_keys = w.preauth_keys;
  }
  perform-IsWellFormed (upsert_user user) s w = record {
    networks = w.networks;
    users = upsert-IsUnique (λ (u : User). u.id) user _ w.users;
    nodes = w.nodes;
    preauth_keys = w.preauth_keys;
  }
  perform-IsWellFormed (upsert_node node) s w = record {
    networks = w.networks;
    users = w.users;
    nodes = upsert-IsUnique (λ (n : Node). n.id) node _ w.nodes;
    preauth_keys = w.preauth_keys;
  }
  perform-IsWellFormed (delete_node id) s w = record {
    networks = w.networks;
    users = w.users;
    nodes = filter-IsUnique (λ (n : Node). n.id) _ _ w.nodes;
    preauth_keys = w.preauth_keys;
  }
  perform-IsWellFormed (upsert_preauth_key key) s w = record {
    networks = w.networks;
    users = w.users;
    nodes = w.nodes;
    preauth_keys = upsert-IsUnique (λ (k : PreAuthKey). k.id) key _ w.preauth_keys;
  }
  perform-IsWellFormed (consume_preauth_key now id) s w = consume-IsWellFormed now id s w
  perform-IsWellFormed _ s w = record {
    networks = w.networks;
    users = w.users;
    nodes = w.nodes;
    preauth_keys = w.preauth_keys;
  }

  pub run-IsWellFormed :
      (calls : List (Call DateTime)) (s : MemoryStore)
      → IsWellFormed s.inner
      → IsWellFormed (run c calls s).inner
  unfolding run
  run-IsWellFormed [] s w = w
  run-IsWellFormed (call ∷ rest) s w =
      run-IsWellFormed rest (perform c call s).1 (perform-IsWellFormed call s w)
