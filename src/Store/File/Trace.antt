-- ===== src/Store/File/Trace.antt =====
-- Runs of crates/control-core/src/store/file.rs.
use oxiscale.Prelude.{◌≡◌, List, [], ◌∷◌, Result, ok}
use oxiscale.Store.Types.{StoreError}
use oxiscale.Store.Chrono.{Chrono}
use oxiscale.Store.Calls.{
  Call, Answer, answer, list_networks, upsert_network, list_users, upsert_user, list_nodes,
  get_node, upsert_node, delete_node, list_preauth_keys, upsert_preauth_key, consume_preauth_key,
  get_policy, set_policy,
}
use oxiscale.Store.Calls.{Reply}
use oxiscale.Store.Host.{Host}
use oxiscale.Store.File.{FileStore}
use oxiscale.Store.File.Methods

-- The store, and the disk that it writes to.
abbrev pub OnDisk : Host → Type 0
OnDisk h = FileStore × h.Disk

module _ (h : Host) (c : Chrono) where
  open h use {Disk}
  open c use {DateTime}

  abbrev read : Answer → FileStore → Disk → Answer × FileStore × Disk
  read a store disk = (a, store, disk)

  abbrev wrote :
      {A : Type 0} (f : A → Reply)
      → Result StoreError A × FileStore × Disk
      → Answer × FileStore × Disk
  wrote f (r, store, disk) = (answer f r, store, disk)

  -- `impl Store for FileStore`
  unfoldable pub perform : Call DateTime → FileStore → Disk → Answer × FileStore × Disk
  perform list_networks s d = read (answer Reply.networks (Methods.list_networks s)) s d
  perform (list_users network) s d = read (answer Reply.users (Methods.list_users network s)) s d
  perform (list_nodes network) s d = read (answer Reply.nodes (Methods.list_nodes network s)) s d
  perform (get_node id) s d = read (answer Reply.node (Methods.get_node id s)) s d
  perform (list_preauth_keys network) s d =
      read (answer Reply.preauth_keys (Methods.list_preauth_keys network s)) s d
  perform (get_policy network) s d = read (answer Reply.policy (Methods.get_policy network s)) s d
  perform (upsert_network net) s d = wrote (λ _. Reply.unit) (Methods.upsert_network h net s d)
  perform (upsert_user user) s d = wrote (λ _. Reply.unit) (Methods.upsert_user h user s d)
  perform (upsert_node node) s d = wrote (λ _. Reply.unit) (Methods.upsert_node h node s d)
  perform (delete_node id) s d = wrote (λ _. Reply.unit) (Methods.delete_node h id s d)
  perform (upsert_preauth_key key) s d =
      wrote (λ _. Reply.unit) (Methods.upsert_preauth_key h key s d)
  perform (set_policy network policy) s d =
      wrote (λ _. Reply.unit) (Methods.set_policy h network policy s d)
  perform (consume_preauth_key now id) s d =
      wrote Reply.consumed (Methods.consume_preauth_key h c now id s d)

  -- A run that stops at the first error.
  abbrev pub Succeeds : List (Call DateTime) → FileStore → Disk → FileStore → Disk → Type 0
  Succeeds [] s d s' d' = (s ≡ s') × (d ≡ d')
  Succeeds (call ∷ rest) s d s' d' =
      let (a, s1, d1) = perform call s d in (r : Reply) × (a ≡ ok r) × Succeeds rest s1 d1 s' d'
