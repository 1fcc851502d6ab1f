-- ===== src/Store/Memory/Trace.antt =====
-- Runs of crates/control-core/src/store/memory.rs. The lock makes each method atomic, so what
-- concurrent callers see is what some sequence of calls sees.
use oxiscale.Prelude.{ℕ, ◌+◌, ◌==◌, Bool, true, false, if◌then◌else◌, List, [], ◌∷◌, Result, ok}
use oxiscale.Store.Types.{PreAuthKeyId, StoreError}
use oxiscale.Store.Chrono.{Chrono}
use oxiscale.Store.Calls.{
  Call, Answer, answer, list_networks, upsert_network, list_users, upsert_user, list_nodes,
  get_node, upsert_node, delete_node, list_preauth_keys, upsert_preauth_key, consume_preauth_key,
  get_policy, set_policy,
}
use oxiscale.Store.Calls.{Reply}
use oxiscale.Store.Memory
use oxiscale.Store.Memory.{MemoryStore}

abbrev pub read : MemoryStore → Answer → Answer × MemoryStore
read s a = (a, s)

abbrev pub wrote {ℓ} :
    {A : Type ℓ} (f : A → Reply) → Result StoreError A × MemoryStore → Answer × MemoryStore
wrote f (r, s) = (answer f r, s)

module _ (c : Chrono) where
  open c use {DateTime}

  -- `impl Store for MemoryStore`
  unfoldable pub perform : Call DateTime → MemoryStore → Answer × MemoryStore
  perform list_networks s = read s (answer Reply.networks (Memory.list_networks s))
  perform (upsert_network net) s = wrote (λ _. Reply.unit) (Memory.upsert_network net s)
  perform (list_users n) s = read s (answer Reply.users (Memory.list_users n s))
  perform (upsert_user user) s = wrote (λ _. Reply.unit) (Memory.upsert_user user s)
  perform (list_nodes n) s = read s (answer Reply.nodes (Memory.list_nodes n s))
  perform (get_node id) s = read s (answer Reply.node (Memory.get_node id s))
  perform (upsert_node node) s = wrote (λ _. Reply.unit) (Memory.upsert_node node s)
  perform (delete_node id) s = wrote (λ _. Reply.unit) (Memory.delete_node id s)
  perform (list_preauth_keys n) s =
      read s (answer Reply.preauth_keys (Memory.list_preauth_keys n s))
  perform (upsert_preauth_key key) s = wrote (λ _. Reply.unit) (Memory.upsert_preauth_key key s)
  perform (consume_preauth_key now id) s =
      wrote Reply.consumed (Memory.consume_preauth_key c now id s)
  perform (get_policy n) s = read s (answer Reply.policy (Memory.get_policy n s))
  perform (set_policy n policy) s = wrote (λ _. Reply.unit) (Memory.set_policy n policy s)

  unfoldable pub run : List (Call DateTime) → MemoryStore → MemoryStore
  run [] s = s
  run (call ∷ rest) s = run rest (perform call s).1

  -- Whether a call consumed the key `id`.
  abbrev pub is_win : PreAuthKeyId → Call DateTime → Answer → Bool
  is_win id (consume_preauth_key now j) (ok (Reply.consumed true)) = j == id
  is_win id _ _ = false

  -- How many calls of a run consumed the key `id`.
  unfoldable pub wins : PreAuthKeyId → List (Call DateTime) → MemoryStore → ℕ
  wins id [] s = 0
  wins id (call ∷ rest) s =
      let (reply, s') = perform call s in (if is_win id call reply then 1 else 0) + wins id rest s'
