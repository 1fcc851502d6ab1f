-- ===== src/Store/File.antt =====
-- crates/control-core/src/store/file.rs: the backend that writes a snapshot of the whole document
-- after each mutation. A method takes the store and the disk, and returns its result with the store
-- and the disk that it leaves, also when it fails.
pub mod Scenarios
pub mod Methods
pub mod Trace
pub mod Flush
pub mod Durable
pub mod Restart
pub mod Lost
pub mod Healthy
pub mod Tasks
pub mod Sessions
pub mod History
pub mod SampleDisk
pub mod Tests
use Prim.Native.String.{◌++◌}
use oxiscale.Prelude.{
  ◌==◌, String, Bool, true, false, if◌then◌else◌, Option, none, some, List, [], ◌∷◌, Result, ok,
  err, map_err, ℕ,
}
use oxiscale.Store.Chrono.{Chrono}
use oxiscale.Store.Types.{
  NetworkId, NodeId, PreAuthKeyId, Network, User, Node, PreAuthKey, StoreError, IoError, io, serde,
  not_found, other_kind,
}
use oxiscale.Store.Document.{StoreDocument}
use oxiscale.Store.FilePath.{FilePath, extension, with_extension, bytes_eq}
use oxiscale.Store.Host.{Host}
use oxiscale.Store.Memory
use oxiscale.Store.Memory.{MemoryStore}

pub data Format : Type 0 where
  json yaml toml : Format

abbrev pub json_extension : List ℕ
json_extension = b'j' ∷ b's' ∷ b'o' ∷ b'n' ∷ []

abbrev pub yaml_extension : List ℕ
yaml_extension = b'y' ∷ b'a' ∷ b'm' ∷ b'l' ∷ []

abbrev pub yml_extension : List ℕ
yml_extension = b'y' ∷ b'm' ∷ b'l' ∷ []

abbrev pub toml_extension : List ℕ
toml_extension = b't' ∷ b'o' ∷ b'm' ∷ b'l' ∷ []

abbrev pub tmp_extension : List ℕ
tmp_extension = b't' ∷ b'm' ∷ b'p' ∷ []

abbrev of_extension : List ℕ → Option Format
of_extension e =
    if bytes_eq e json_extension
    then some json
    else if bytes_eq e yaml_extension
    then some yaml
    else if bytes_eq e yml_extension
    then some yaml
    else if bytes_eq e toml_extension
    then some toml
    else none

-- An extension that is not UTF-8 equals none of the four.
unfoldable pub from_path : FilePath → Option Format
from_path path = elim (extension path) [ none ↦ none | some e ↦ of_extension e ]

pub record FileStore : Type 0 where
  pub path : FilePath
  pub format : Format
  pub memory : MemoryStore

unfoldable pub with_format : Format → FileStore → FileStore
with_format format store = record store { format = format }

module _ (h : Host) where
  open h use {Bytes, Text, Disk, read, write, rename, into_bytes, from_utf8}

  abbrev text_bytes : Result String Text → Result StoreError Bytes
  text_bytes (ok t) = ok (into_bytes t)
  text_bytes (err e) = err (serde e)

  unfoldable pub serialize : Format → StoreDocument → Result StoreError Bytes
  serialize json doc = map_err serde (h.json_to_vec_pretty doc)
  serialize yaml doc = text_bytes (h.yaml_to_string doc)
  serialize toml doc = text_bytes (h.toml_to_string_pretty doc)

  toml_from_utf8 : Result String Text → Result StoreError StoreDocument
  toml_from_utf8 (ok text) = map_err serde (h.toml_from_str text)
  toml_from_utf8 (err e) = err (serde ("snapshot is not valid UTF-8: " ++ e))

  unfoldable pub deserialize : Format → Bytes → Result StoreError StoreDocument
  unfolding toml_from_utf8
  deserialize json bytes = map_err serde (h.json_from_slice bytes)
  deserialize yaml bytes = map_err serde (h.yaml_from_slice bytes)
  deserialize toml bytes = toml_from_utf8 (from_utf8 bytes)

  load_document :
      FileStore → Result StoreError StoreDocument → Result StoreError (Unit {0}) × FileStore
  load_document store (ok doc) = (ok tt, record store { memory = Memory.replace doc store.memory })
  load_document store (err e) = (err e, store)

  load_read : FileStore → Result IoError Bytes → Result StoreError (Unit {0}) × FileStore
  unfolding load_document
  load_read store (ok bytes) = load_document store (deserialize store.format bytes)
  load_read store (err not_found) = (ok tt, store)
  load_read store (err (other_kind n)) = (err (io (other_kind n)), store)

  unfoldable pub load : FileStore → Disk → Result StoreError (Unit {0}) × FileStore
  unfolding load_read
  load store disk = load_read store (read store.path disk)

  loaded : Result StoreError (Unit {0}) × FileStore → Result StoreError FileStore
  loaded (ok _, store) = ok store
  loaded (err e, store) = err e

  unfoldable pub open_with : Option Format → FilePath → Disk → Result StoreError FileStore
  unfolding loaded
  open_with none path disk =
      err (serde "unsupported file extension; use .json, .yaml, .yml, or .toml")
  open_with (some format) path disk =
      loaded (load (record { path = path; format = format; memory = Memory.new }) disk)

  -- `FileStore::open`
  unfoldable pub open_store : FilePath → Disk → Result StoreError FileStore
  unfolding open_with
  open_store path disk = open_with (from_path path) path disk

  io_step :
      Result IoError (Unit {0}) × Disk
      → (Disk → Result StoreError (Unit {0}) × Disk)
      → Result StoreError (Unit {0}) × Disk
  io_step (ok _, disk) next = next disk
  io_step (err e, disk) next = (err (io e), disk)

  write_snapshot : FilePath → Result StoreError Bytes → Disk → Result StoreError (Unit {0}) × Disk
  unfolding io_step
  write_snapshot path (err e) disk = (err e, disk)
  write_snapshot path (ok bytes) disk =
      let tmp = with_extension path tmp_extension in
      io_step (write tmp bytes disk)
        (λ written. io_step (rename tmp path written) (λ d. (ok tt, d)))

  unfoldable pub flush : FileStore → Disk → Result StoreError (Unit {0}) × Disk
  unfolding write_snapshot
  flush store disk =
      let doc = Memory.snapshot store.memory in
      write_snapshot store.path (serialize store.format doc) disk
