-- ===== src/Store/File/Methods.antt =====
-- `impl Store for FileStore` of crates/control-core/src/store/file.rs: reads go to the memory store,
-- writes go to it and are then flushed.
use oxiscale.Prelude.{String, Bool, if◌then◌else◌, Option, List, Result, ok, err}
use oxiscale.Store.Chrono.{Chrono}
use oxiscale.Store.Types.{
  NetworkId, NodeId, PreAuthKeyId, Network, User, Node, PreAuthKey, StoreError,
}
use oxiscale.Store.Host.{Host}
use oxiscale.Store.Memory
use oxiscale.Store.Memory.{MemoryStore}
use oxiscale.Store.File.{FileStore, flush}

unfoldable pub list_networks : FileStore → Result StoreError (List Network)
list_networks store = Memory.list_networks store.memory

unfoldable pub list_users : NetworkId → FileStore → Result StoreError (List User)
list_users network store = Memory.list_users network store.memory

unfoldable pub list_nodes : NetworkId → FileStore → Result StoreError (List Node)
list_nodes network store = Memory.list_nodes network store.memory

unfoldable pub get_node : NodeId → FileStore → Result StoreError (Option Node)
get_node id store = Memory.get_node id store.memory

unfoldable pub list_preauth_keys : NetworkId → FileStore → Result StoreError (List PreAuthKey)
list_preauth_keys network store = Memory.list_preauth_keys network store.memory

unfoldable pub get_policy : NetworkId → FileStore → Result StoreError (Option String)
get_policy network store = Memory.get_policy network store.memory

module _ (h : Host) where
  open h use {Disk}

  -- What a writing method returns, with the store and the disk that it leaves.
  abbrev pub Method : Type 0 → Type 0
  Method A = FileStore → Disk → Result StoreError A × FileStore × Disk

  unfoldable pub flushed :
      FileStore
      → Result StoreError (Unit {0})
      → Disk
      → Result StoreError (Unit {0}) × FileStore × Disk
  flushed store (err e) disk = (err e, store, disk)
  flushed store (ok _) disk = let (r, disk') = flush h store disk in (r, store, disk')

  -- `self.memory.method(..).await?; self.flush().await`
  unfoldable pub mutate : Memory.Update Unit → Method Unit
  unfolding flushed
  mutate method store disk =
      let (r, memory) = method store.memory in flushed (record store { memory = memory }) r disk

  unfoldable pub upsert_network : Network → Method Unit
  unfolding mutate
  upsert_network net = mutate (Memory.upsert_network net)

  unfoldable pub upsert_user : User → Method Unit
  unfolding mutate
  upsert_user user = mutate (Memory.upsert_user user)

  unfoldable pub upsert_node : Node → Method Unit
  unfolding mutate
  upsert_node node = mutate (Memory.upsert_node node)

  unfoldable pub delete_node : NodeId → Method Unit
  unfolding mutate
  delete_node id = mutate (Memory.delete_node id)

  unfoldable pub upsert_preauth_key : PreAuthKey → Method Unit
  unfolding mutate
  upsert_preauth_key key = mutate (Memory.upsert_preauth_key key)

  unfoldable pub set_policy : NetworkId → String → Method Unit
  unfolding mutate
  set_policy network policy = mutate (Memory.set_policy network policy)

module _ (h : Host) (c : Chrono) where
  open h use {Disk}
  open c use {DateTime}

  pub answered :
      Bool
      → FileStore
      → Result StoreError (Unit {0}) × Disk
      → Result StoreError Bool × FileStore × Disk
  answered consumed store (ok _, disk) = (ok consumed, store, disk)
  answered consumed store (err e, disk) = (err e, store, disk)

  pub flush_if_consumed :
      FileStore → Result StoreError Bool → Disk → Result StoreError Bool × FileStore × Disk
  unfolding answered
  flush_if_consumed store (err e) disk = (err e, store, disk)
  flush_if_consumed store (ok consumed) disk =
      if consumed then answered consumed store (flush h store disk) else (ok consumed, store, disk)

  unfoldable pub consume_preauth_key : DateTime → PreAuthKeyId → Method h Bool
  unfolding flush_if_consumed
  consume_preauth_key now id store disk =
      let (r, memory) = Memory.consume_preauth_key c now id store.memory in
      flush_if_consumed (record store { memory = memory }) r disk
