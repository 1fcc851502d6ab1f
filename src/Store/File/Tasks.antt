-- ===== src/Store/File/Tasks.antt =====
-- Tasks that share one store of crates/control-core/src/store/file.rs, each with a call of its own.
-- The memory store's lock makes its method and `snapshot` one step each. `std::fs::write` is two, the
-- creation of the file, which empties it, and the writing to it; `rename` is one. Between two steps of
-- a task any other may move.

pub mod Moves
pub mod Order
pub mod Intact
pub mod Kept
pub mod Snapshot
pub mod Lost
pub mod Torn
mod TornTests
pub mod Halfway
pub mod Crash
mod Tests
pub mod Alone
use oxiscale.Prelude.{
  ℕ, ◌==◌, Bool, true, false, if◌then◌else◌, List, [], ◌∷◌, ◌++◌, Result, ok, err,
}
use oxiscale.Store.Types.{StoreError, IoError, io}
use oxiscale.Store.Chrono.{Chrono}
use oxiscale.Store.Document.{StoreDocument}
use oxiscale.Store.Calls.{
  Call, Answer, Reply, list_networks, upsert_network, list_users, upsert_user, list_nodes, get_node,
  upsert_node, delete_node, list_preauth_keys, upsert_preauth_key, consume_preauth_key, get_policy,
  set_policy,
}
use oxiscale.Store.FilePath.{FilePath, with_extension}
use oxiscale.Store.Host.{Host}
use oxiscale.Store.Memory
use oxiscale.Store.Memory.{MemoryStore}
use oxiscale.Store.Memory.Trace
use oxiscale.Store.File.{Format, serialize, tmp_extension}

-- Where a task stands, with the local variables that are live there.
pub data Stage (h : Host) : Type 0 where
  start : Stage h
  changed : Reply → Stage h  -- before `snapshot`
  taken : Reply → StoreDocument → Stage h  -- before `serialize` and the creation of the file
  writing : Reply → h.Bytes → h.File → Stage h  -- before the bytes are written
  written : Reply → Stage h  -- before `rename`
  done : Answer → Stage h

module _ {h : Host} where
  abbrev pub is_start : Stage h → Bool
  is_start start = true
  is_start _ = false

abbrev is_consumed : Reply → Bool
is_consumed (Reply.consumed b) = b
is_consumed _ = false

module _ {D : Type 0} where
  -- Whether the method flushes after the memory store has answered.
  abbrev pub flushes : Call D → Reply → Bool
  flushes list_networks r = false
  flushes (list_users _) r = false
  flushes (list_nodes _) r = false
  flushes (get_node _) r = false
  flushes (list_preauth_keys _) r = false
  flushes (get_policy _) r = false
  flushes (consume_preauth_key _ _) r = is_consumed r
  flushes _ r = true

module _ (h : Host) (c : Chrono) where
  open h use {Bytes, File, Disk, create, write_all, rename}
  open c use {DateTime}

  -- What the tasks share and what each is to call.
  pub record Setup : Type 0 where
    pub path : FilePath
    pub format : Format
    pub calls : ℕ → Call DateTime

  pub record System : Type 0 where
    pub memory : MemoryStore
    pub disk : Disk
    pub stages : ℕ → Stage h

  abbrev pub stage_at : ℕ → Stage h → (ℕ → Stage h) → ℕ → Stage h
  stage_at i stage stages j = if i == j then stage else stages j

  pub settle : ℕ → Stage h → System → System
  settle i stage s = record s { stages = stage_at i stage s.stages }

  answered : ℕ → Call DateTime → Answer → System → System
  unfolding settle
  answered i call (err e) s = settle i (done (err e)) s
  answered i call (ok r) s = settle i (if flushes call r then changed r else done (ok r)) s

  on_disk : ℕ → (Stage h × Disk) → System → System
  on_disk i (stage, disk) s = record s { disk = disk; stages = stage_at i stage s.stages }

  created : Reply → Bytes → Result IoError File × Disk → Stage h × Disk
  created r bytes (ok file, disk) = (writing r bytes file, disk)
  created r bytes (err e, disk) = (done (err (io e)), disk)

  pub wrote : Reply → Result IoError (Unit {0}) × Disk → Stage h × Disk
  wrote r (ok _, disk) = (written r, disk)
  wrote r (err e, disk) = (done (err (io e)), disk)

  renamed : Reply → Result IoError (Unit {0}) × Disk → Stage h × Disk
  renamed r (ok _, disk) = (done (ok r), disk)
  renamed r (err e, disk) = (done (err (io e)), disk)

  serialized : FilePath → ℕ → Reply → Result StoreError Bytes → System → System
  unfolding settle on_disk created
  serialized path i r (err e) s = settle i (done (err e)) s
  serialized path i r (ok bytes) s =
      on_disk i (created r bytes (create (with_extension path tmp_extension) s.disk)) s

  -- One step of task `i` from a stage.
  pub move : Setup → ℕ → Stage h → System → System
  unfolding settle answered on_disk wrote renamed serialized
  move setup i start s =
      let (a, memory) = Trace.perform c (setup.calls i) s.memory in
      answered i (setup.calls i) a (record s { memory = memory })
  move setup i (changed r) s = settle i (taken r (Memory.snapshot s.memory)) s
  move setup i (taken r doc) s = serialized setup.path i r (serialize h setup.format doc) s
  move setup i (writing r bytes file) s = on_disk i (wrote r (write_all file bytes s.disk)) s
  move setup i (written r) s =
      on_disk i (renamed r (rename (with_extension setup.path tmp_extension) setup.path s.disk)) s
  move setup i (done a) s = s

  unfoldable pub turn : Setup → ℕ → System → System
  unfolding move
  turn setup i s = move setup i (s.stages i) s

  -- The tasks in the order in which they move.
  unfoldable pub run : Setup → List ℕ → System → System
  run setup [] s = s
  run setup (i ∷ rest) s = run setup rest (turn setup i s)

  -- No task has moved.
  abbrev pub initial : MemoryStore → Disk → System
  initial memory disk = record { memory = memory; disk = disk; stages = λ _. start }
